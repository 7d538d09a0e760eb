-- ===== src/Screen/Widgets.antt =====
-- Changing widgets by name: the flags, states, images and effects of cgo/ctrl.c. The graphics library
-- and its constants are arguments.
use hardware_os.Base.{
  ℕ, ◌==◌, ◌≡◌, ◌≢◌, ◌⊎◌, inl, inr, refl, Bool, true, false, ◌||◌, Option, none, some, List, [],
  ◌∷◌, All, arith, if◌then◌else◌,
}
use hardware_os.Base.Int.{ℤ, pos, negsuc}
use hardware_os.Base.CString.{codes}
use hardware_os.Ui.Navigation.{bytes_eq}
use hardware_os.Screen.{Entry, ui_get_obj}

-- The constants LV_OBJ_FLAG_… of the library.
pub record ObjFlags : Type 0 where
  pub hidden : ℕ
  pub clickable : ℕ
  pub scrollable : ℕ
  pub click_focusable : ℕ
  pub scroll_on_focus : ℕ
  pub scroll_chain : ℕ
  pub press_lock : ℕ
  pub overflow_visible : ℕ

-- The constants LV_STATE_… of the library.
pub record ObjStates : Type 0 where
  pub user_1 : ℕ
  pub user_2 : ℕ
  pub user_3 : ℕ
  pub user_4 : ℕ
  pub disabled : ℕ
  pub default : ℕ
  pub checked : ℕ
  pub focused : ℕ

-- A chain of `strcmp(name, ...) == 0`, with what it returns at its end.
named : List (List ℕ × ℕ) → ℕ → List ℕ → ℕ
named [] otherwise name = otherwise
named ((x, value) ∷ rest) otherwise name =
    if bytes_eq name x then value else named rest otherwise name

abbrev pub obj_flags : ObjFlags → List (List ℕ × ℕ)
obj_flags c =
    (codes "LV_OBJ_FLAG_HIDDEN", c.hidden)
    ∷ (codes "LV_OBJ_FLAG_CLICKABLE", c.clickable)
    ∷ (codes "LV_OBJ_FLAG_SCROLLABLE", c.scrollable)
    ∷ (codes "LV_OBJ_FLAG_CLICK_FOCUSABLE", c.click_focusable)
    ∷ (codes "LV_OBJ_FLAG_SCROLL_ON_FOCUS", c.scroll_on_focus)
    ∷ (codes "LV_OBJ_FLAG_SCROLL_CHAIN", c.scroll_chain)
    ∷ (codes "LV_OBJ_FLAG_PRESS_LOCK", c.press_lock)
    ∷ (codes "LV_OBJ_FLAG_OVERFLOW_VISIBLE", c.overflow_visible)
    ∷ []

unfoldable pub str_to_lv_obj_flag : ObjFlags → List ℕ → ℕ
unfolding named
str_to_lv_obj_flag c flag = named (obj_flags c) 0 flag

unfoldable pub str_to_lv_state : ObjStates → List ℕ → ℕ
unfolding named
str_to_lv_state c state_name =
    named
      ((codes "LV_STATE_USER_1", c.user_1)
        ∷ (codes "LV_STATE_USER_2", c.user_2)
        ∷ (codes "LV_STATE_USER_3", c.user_3)
        ∷ (codes "LV_STATE_USER_4", c.user_4)
        ∷ (codes "LV_STATE_DISABLED", c.disabled)
        ∷ (codes "LV_STATE_DEFAULT", c.default)
        ∷ (codes "LV_STATE_CHECKED", c.checked)
        ∷ (codes "LV_STATE_FOCUSED", c.focused)
        ∷ [])
      c.default state_name

-- The calls of the graphics library, over its state: an object, then the value. The effects take a
-- duration and a delay.
pub record Widgets (S : Type 0) : Type 0 where
  pub add_flag : ℕ → ℕ → S → S
  pub clear_flag : ℕ → ℕ → S → S
  pub add_state : ℕ → ℕ → S → S
  pub clear_state : ℕ → ℕ → S → S
  pub set_src : ℕ → List ℕ → S → S
  pub fade_in : ℕ → ℕ → ℕ → S → S
  pub fade_out : ℕ → ℕ → ℕ → S → S
  pub set_style_opa : ℕ → ℕ → S → S

module _ {S : Type 0} where
  -- `if (obj == NULL) return;` and the call for the object.
  with_object : Option ℕ → (ℕ → S → S) → S → S
  with_object none call s = s
  with_object (some o) call s = call o s

  -- The same with the results -1 and -2.
  with_flag : Option ℕ → ℕ → (ℕ → ℕ → S → S) → S → S × ℤ
  with_flag none flag_val call s = (s, negsuc 0)
  with_flag (some o) flag_val call s =
      if flag_val == 0 then (s, negsuc 1) else (call o flag_val s, pos 0)

module _ {S : Type 0} (lv : Widgets S) where
  unfoldable pub jetkvm_ui_set_image : List Entry → List ℕ → List ℕ → S → S
  unfolding with_object
  jetkvm_ui_set_image table obj_name image_name s =
      with_object (ui_get_obj table obj_name) (λ o. lv.set_src o image_name) s

  unfoldable pub jetkvm_ui_add_state : ObjStates → List Entry → List ℕ → List ℕ → S → S
  unfolding with_object str_to_lv_state
  jetkvm_ui_add_state c table obj_name state_name s =
      with_object (ui_get_obj table obj_name) (λ o. lv.add_state o (str_to_lv_state c state_name)) s

  unfoldable pub jetkvm_ui_clear_state : ObjStates → List Entry → List ℕ → List ℕ → S → S
  unfolding with_object str_to_lv_state
  jetkvm_ui_clear_state c table obj_name state_name s =
      with_object (ui_get_obj table obj_name) (λ o. lv.clear_state o (str_to_lv_state c state_name))
        s

  unfoldable pub jetkvm_ui_add_flag : ObjFlags → List Entry → List ℕ → List ℕ → S → S × ℤ
  unfolding with_flag str_to_lv_obj_flag
  jetkvm_ui_add_flag c table obj_name flag_name s =
      with_flag (ui_get_obj table obj_name) (str_to_lv_obj_flag c flag_name) lv.add_flag s

  unfoldable pub jetkvm_ui_clear_flag : ObjFlags → List Entry → List ℕ → List ℕ → S → S × ℤ
  unfolding with_flag str_to_lv_obj_flag
  jetkvm_ui_clear_flag c table obj_name flag_name s =
      with_flag (ui_get_obj table obj_name) (str_to_lv_obj_flag c flag_name) lv.clear_flag s

  unfoldable pub jetkvm_ui_fade_in : List Entry → List ℕ → ℕ → S → S
  unfolding with_object
  jetkvm_ui_fade_in table obj_name duration s =
      with_object (ui_get_obj table obj_name) (λ o. lv.fade_in o duration 0) s

  unfoldable pub jetkvm_ui_fade_out : List Entry → List ℕ → ℕ → S → S
  unfolding with_object
  jetkvm_ui_fade_out table obj_name duration s =
      with_object (ui_get_obj table obj_name) (λ o. lv.fade_out o duration 0) s

  unfoldable pub jetkvm_ui_set_opacity : List Entry → List ℕ → ℕ → S → S
  unfolding with_object
  jetkvm_ui_set_opacity table obj_name opacity s =
      with_object (ui_get_obj table obj_name) (λ o. lv.set_style_opa o opacity) s

abbrev pub is_one_of : List (List ℕ × ℕ) → List ℕ → Bool
is_one_of [] name = false
is_one_of ((x, value) ∷ rest) name = bytes_eq name x || is_one_of rest name

-- Whether a text is one of the eight names.
unfoldable pub is_flag_name : ObjFlags → List ℕ → Bool
is_flag_name c name = is_one_of (obj_flags c) name

-- No constant is 0.
abbrev pub IsProper : ObjFlags → Type 0
IsProper c = All (λ e. e.1 ≢ 0) (obj_flags c)

-- A name has a value, or the chain comes to its end.
named-cases :
    (es : List (List ℕ × ℕ)) (name : List ℕ)
    → All (λ e. e.1 ≢ 0) es
    → ((is_one_of es name ≡ true) × (named es 0 name ≢ 0))
      ⊎ ((is_one_of es name ≡ false) × (named es 0 name ≡ 0))
unfolding named
named-cases [] name proper = inr (refl, refl)
named-cases ((x, value) ∷ rest) name proper =
    ground (arith, named-cases rest name proper.1, proper.0)

-- What one of the two calls for a flag makes of the state, with its result, by cases on what is found.
abbrev pub IsAnswer :
    {S : Type 0} → ObjFlags → (ℕ → ℕ → S → Bool) → Option ℕ → List ℕ → Bool → S → S × ℤ → Type 0
IsAnswer c has found flag_name after s (t, ret) =
    ((found ≡ none) × (t ≡ s) × (ret ≡ negsuc 0))
    ⊎ ((found ≢ none) × (is_flag_name c flag_name ≡ false) × (t ≡ s) × (ret ≡ negsuc 1))
    ⊎ ((is_flag_name c flag_name ≡ true)
        × (ret ≡ pos 0)
        × ((o : ℕ) × (found ≡ some o) × (has o (str_to_lv_obj_flag c flag_name) t ≡ after)))

str_to_lv_obj_flag-cases :
    (c : ObjFlags) (name : List ℕ)
    → IsProper c
    → ((is_flag_name c name ≡ true) × (str_to_lv_obj_flag c name ≢ 0))
      ⊎ ((is_flag_name c name ≡ false) × (str_to_lv_obj_flag c name ≡ 0))
unfolding is_flag_name str_to_lv_obj_flag
str_to_lv_obj_flag-cases c name proper = named-cases (obj_flags c) name proper

with_flag-IsAnswer :
    {S : Type 0} (c : ObjFlags) (has : ℕ → ℕ → S → Bool) (found : Option ℕ) (flag_name : List ℕ)
    (after : Bool) (call : ℕ → ℕ → S → S) (s : S)
    → IsProper c
    → ((o f : ℕ) (s : S) → has o f (call o f s) ≡ after)
    → IsAnswer c has found flag_name after s
        (with_flag found (str_to_lv_obj_flag c flag_name) call s)
unfolding with_flag
with_flag-IsAnswer c has none flag_name after call s proper law = inl (refl, refl, refl)
with_flag-IsAnswer c has (some o) flag_name after call s proper law =
    elim (str_to_lv_obj_flag-cases c flag_name proper) [
      | inr (other, zero) ↦ rw (zero, other) (inr (inl (λ e. cc, refl, refl, refl)))
      | inl (known, value) ↦
          rw (not_zero (str_to_lv_obj_flag c flag_name) value, known)
            (inr (inr (refl, refl, (o, refl, law o (str_to_lv_obj_flag c flag_name) s))))
    ]
  where
    not_zero : (n : ℕ) → n ≢ 0 → (n == 0) ≡ false
    not_zero n h = ground arith

-- Setting and clearing a flag by name, where the flags of the library are not 0, and the library sets
-- and clears the flag it is told to: without the object nothing changes and the result is -1; with the
-- object and a name that is none of the eight nothing changes and the result is -2; else the result is
-- 0, and the object has the flag, or has it no more.
jetkvm_ui_add_flag_answers :
    {S : Type 0} (lv : Widgets S) (has : ℕ → ℕ → S → Bool) (c : ObjFlags) (table : List Entry)
    (obj_name flag_name : List ℕ) (s : S)
    → IsProper c
    → ((o f : ℕ) (s : S) → has o f (lv.add_flag o f s) ≡ true)
    → ((o f : ℕ) (s : S) → has o f (lv.clear_flag o f s) ≡ false)
    → IsAnswer c has
        (ui_get_obj table obj_name)
        flag_name
        true
        s
        (jetkvm_ui_add_flag lv c table obj_name flag_name s)
      × IsAnswer c has
          (ui_get_obj table obj_name)
          flag_name
          false
          s
          (jetkvm_ui_clear_flag lv c table obj_name flag_name s)
unfolding jetkvm_ui_add_flag jetkvm_ui_clear_flag
jetkvm_ui_add_flag_answers lv has c table obj_name flag_name s proper sets clears = (
  with_flag-IsAnswer c has (ui_get_obj table obj_name) flag_name true lv.add_flag s proper sets,
  with_flag-IsAnswer c has (ui_get_obj table obj_name) flag_name false lv.clear_flag s proper
      clears,
)
