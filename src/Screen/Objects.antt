-- ===== src/Screen/Objects.antt =====
-- What is found by name is what is shown and what is set (cgo/screen.c and cgo/ctrl.c).
use hardware_os.Base.{
  ℕ, ◌==◌, ==_iff, ◌≡◌, refl, ap, ap₂, ◌∙◌, inl, inr, true, false, Option, none, some, List, [],
  ◌∷◌, All, if◌then◌else◌, Bool-cases,
}
use hardware_os.Base.Int.{pos}
use hardware_os.Ui.Navigation.{bytes_eq}
use hardware_os.Screen.{
  Entry, ui_get_obj, is_obj, name_of, ui_get_current_screen, jetkvm_ui_load_screen, Labels,
  jetkvm_ui_set_text,
}

pub bytes_eq_sound : (xs ys : List ℕ) → bytes_eq xs ys ≡ true → xs ≡ ys
bytes_eq_sound [] [] h = refl
bytes_eq_sound (x ∷ xs) [] h = cc
bytes_eq_sound [] (y ∷ ys) h = cc
bytes_eq_sound (x ∷ xs) (y ∷ ys) h = elim (Bool-cases (x == y)) [
  | inl same ↦ ap₂ (λ a b. a ∷ b) ((==_iff x y).0 same) (bytes_eq_sound xs ys (rw same at h))
  | inr other ↦ cc (rw other at h)
]

bytes_eq_refl : (xs : List ℕ) → bytes_eq xs xs ≡ true
bytes_eq_refl [] = refl
bytes_eq_refl (x ∷ xs) = rw ((==_iff x x).1 refl) (bytes_eq_refl xs)

-- No object has two names.
abbrev pub IsDistinct : List Entry → Type 0
IsDistinct [] = Unit
IsDistinct (e ∷ es) =
    All (λ x. (o : ℕ) → x.obj ≡ some o → is_obj o e.obj ≡ false) es × IsDistinct es

not_earlier :
    (es : List Entry) (x : Option ℕ) (name : List ℕ) (o : ℕ)
    → ui_get_obj es name ≡ some o
    → All (λ e. (o : ℕ) → e.obj ≡ some o → is_obj o x ≡ false) es
    → is_obj o x ≡ false
unfolding ui_get_obj
not_earlier [] x name o h all = cc
not_earlier (e ∷ es) x name o h all = elim (Bool-cases (bytes_eq e.name name)) [
  | inl here ↦ all.0 o (simp here at h)
  | inr later ↦ not_earlier es x name o (simp later at h) all.1
]

name_of-ui_get_obj :
    (es : List Entry) (name : List ℕ) (o : ℕ)
    → IsDistinct es
    → ui_get_obj es name ≡ some o
    → name_of es o ≡ some name
unfolding name_of ui_get_obj
name_of-ui_get_obj [] name o distinct h = cc
name_of-ui_get_obj (e ∷ es) name o distinct h = elim (Bool-cases (bytes_eq e.name name)) [
  | inl here ↦
      let found : e.obj ≡ some o = simp here at h in
      simp (found, (==_iff o o).1 refl) (ap some (bytes_eq_sound e.name name here))
  | inr later ↦
      let rest : ui_get_obj es name ≡ some o = simp later at h in
      simp (not_earlier es e.obj name o rest distinct.0)
        (name_of-ui_get_obj es name o distinct.1 rest)
]

-- Where no object has two names, a screen that is loaded by name and found is the current screen
-- under that name.
ui_get_current_screen-jetkvm_ui_load_screen :
    (table : List Entry) (name : List ℕ) (active : Option ℕ) (o : ℕ)
    → IsDistinct table
    → ui_get_obj table name ≡ some o
    → ui_get_current_screen table (jetkvm_ui_load_screen table name active) ≡ some name
unfolding ui_get_current_screen jetkvm_ui_load_screen
ui_get_current_screen-jetkvm_ui_load_screen table name active o distinct found =
    rw found (shown active ∙ name_of-ui_get_obj table name o distinct found)
  where
    shown :
        (active : Option ℕ)
        → ui_get_current_screen table (if is_obj o active then active else some o) ≡ name_of table o
    shown none = refl
    shown (some a) = elim (Bool-cases (a == o)) [
      | inl same ↦ simp same (ap (name_of table) ((==_iff a o).0 same))
      | inr other ↦ simp other refl
    ]

-- Where the graphics library gives back the text that a label was given, `jetkvm_ui_set_text` on a
-- label that is found leaves it with the text, and a second call with it returns 1 and changes
-- nothing.
jetkvm_ui_set_text_settles :
    {S : Type 0} (lv : Labels S) (table : List Entry) (name text : List ℕ) (o : ℕ) (s : S)
    → ((o : ℕ) (t : List ℕ) (s : S) → lv.get_text o (lv.set_text o t s) ≡ t)
    → ui_get_obj table name ≡ some o
    → let t = (jetkvm_ui_set_text lv table name text s).0 in
      lv.get_text o t ≡ text × jetkvm_ui_set_text lv table name text t ≡ (t, pos 1)
unfolding jetkvm_ui_set_text
jetkvm_ui_set_text_settles lv table name text o s law found =
    elim (Bool-cases (bytes_eq (lv.get_text o s) text)) [
      | inl same ↦ simp (found, same) (bytes_eq_sound (lv.get_text o s) text same, refl)
      | inr other ↦ simp (found, other, law o text s, bytes_eq_refl text) (refl, refl)
    ]
