-- ===== src/Ui/Vars.antt =====
-- The text variables of eez/src/ui/vars.c, each a fixed array of characters.
use hardware_os.Base.{
  ◌≢◌, inl, inr, Bool-cases, ==_iff, ℕ, suc, ◌≡◌, refl, ap, ◌∙◌, List, [], ◌∷◌, arith, ◌==◌,
  if◌then◌else◌, length, length-set, get_or, set, take, replicate,
}
use hardware_os.Base.CString.{
  c_string, strncpy, IsText, length-strncpy, c_string-strncpy, c_string-set, take-take,
}

pub record Vars : Type 0 where
  pub app_version : List ℕ  -- char[100]
  pub system_version : List ℕ  -- char[100]
  pub lvgl_version : List ℕ  -- char[32]
  pub main_screen : List ℕ  -- char[32]

-- The sizes of the arrays.
pub record IsSized (s : Vars) : Type 0 where
  pub app : length s.app_version ≡ 100
  pub system : length s.system_version ≡ 100
  pub lvgl : length s.lvgl_version ≡ 32
  pub screen : length s.main_screen ≡ 32

-- The values before `main`.
unfoldable pub initial : Vars
initial = record {
  app_version = replicate 100 0;
  system_version = replicate 100 0;
  lvgl_version = replicate 32 0;
  main_screen =
      strncpy 32 (b'h' ∷ b'o' ∷ b'm' ∷ b'e' ∷ b'_' ∷ b's' ∷ b'c' ∷ b'r' ∷ b'e' ∷ b'e' ∷ b'n' ∷ []);
}

unfoldable pub get_var_app_version : Vars → List ℕ
get_var_app_version s = c_string s.app_version

unfoldable pub get_var_system_version : Vars → List ℕ
get_var_system_version s = c_string s.system_version

unfoldable pub get_var_main_screen : Vars → List ℕ
get_var_main_screen s = c_string s.main_screen

-- The first call fills the array from the version of the graphics library, `version`. The
-- terminator is written into `app_version`, as in the source.
unfoldable pub get_var_lvgl_version : List ℕ → Vars → Vars × List ℕ
get_var_lvgl_version version s =
    let t =
      if get_or s.lvgl_version 0 0 == 0
      then record s { lvgl_version = strncpy 32 version; app_version = set s.app_version 31 0 }
      else s in
    (t, c_string t.lvgl_version)

unfoldable pub set_var_app_version : List ℕ → Vars → Vars
set_var_app_version value s = record s { app_version = set (strncpy 100 value) 99 0 }

unfoldable pub set_var_system_version : List ℕ → Vars → Vars
set_var_system_version value s = record s { system_version = set (strncpy 100 value) 99 0 }

-- Does nothing.
unfoldable pub set_var_lvgl_version : List ℕ → Vars → Vars
set_var_lvgl_version value s = s

unfoldable pub set_var_main_screen : List ℕ → Vars → Vars
set_var_main_screen value s = record s { main_screen = set (strncpy 32 value) 31 0 }

-- A text copied into an array of n + 1 characters and terminated is its first n characters.
copied :
    (n : ℕ) (value : List ℕ)
    → IsText value
    → c_string (set (strncpy (suc n) value) n 0) ≡ take n value
copied n value text =
    c_string-set n (strncpy (suc n) value) (omega (arith, length-strncpy (suc n) value))
    ∙ ap (take n) (c_string-strncpy (suc n) value text)
    ∙ take-take n (suc n) value (omega arith)

-- A variable that is set and then read gives the text back, cut to what its array holds beside the
-- terminator: 99 characters of a version, 31 of the name of the main screen.
pub get-set :
    (value : List ℕ) (s : Vars)
    → IsText value
    → (get_var_app_version (set_var_app_version value s) ≡ take 99 value)
      × (get_var_system_version (set_var_system_version value s) ≡ take 99 value)
      × (get_var_main_screen (set_var_main_screen value s) ≡ take 31 value)
unfolding get_var_app_version set_var_app_version get_var_system_version set_var_system_version
    get_var_main_screen set_var_main_screen
get-set value s text = (copied 99 value text, copied 99 value text, copied 31 value text)

-- The first read of the version of the graphics library cuts the version of the application that was
-- set before to its first 31 characters.
pub get_var_lvgl_version_cuts :
    (version value : List ℕ) (s : Vars)
    → IsText value
    → get_or s.lvgl_version 0 0 ≡ 0
    → get_var_app_version (get_var_lvgl_version version (set_var_app_version value s)).0
      ≡ take 31 value
unfolding get_var_app_version get_var_lvgl_version set_var_app_version
get_var_lvgl_version_cuts version value s text first = rw first (
    c_string-set 31 (set (strncpy 100 value) 99 0)
      (omega (arith, length-set (strncpy 100 value) 99 0, length-strncpy 100 value))
    ∙ ap (take 31) (copied 99 value text)
    ∙ take-take 31 99 value (omega arith))

-- Every write, and the read that writes, keeps the arrays at their sizes, and they have these sizes
-- at the start.
Vars-IsSized :
    (value version : List ℕ) (s : Vars)
    → IsSized s
    → IsSized initial
      × IsSized (set_var_app_version value s)
      × IsSized (set_var_system_version value s)
      × IsSized (set_var_main_screen value s)
      × IsSized (get_var_lvgl_version version s).0
unfolding initial set_var_app_version set_var_system_version set_var_main_screen
    get_var_lvgl_version
Vars-IsSized value version s v =
    let app : length (set (strncpy 100 value) 99 0) ≡ 100 =
      length-set (strncpy 100 value) 99 0 ∙ length-strncpy 100 value in
    let screen : length (set (strncpy 32 value) 31 0) ≡ 32 =
      length-set (strncpy 32 value) 31 0 ∙ length-strncpy 32 value in
    (
      record { app = refl; system = refl; lvgl = refl; screen = refl },
      record { app = app; system = v.system; lvgl = v.lvgl; screen = v.screen },
      record { app = v.app; system = app; lvgl = v.lvgl; screen = v.screen },
      record { app = v.app; system = v.system; lvgl = v.lvgl; screen = screen },
      ground (arith, length-set s.app_version 31 0, length-strncpy 32 version),
    )

-- The version of the graphics library was read before: its array is not empty.
abbrev pub IsRead : Vars → Type 0
IsRead s = get_or s.lvgl_version 0 0 ≢ 0

-- A read of a version that is not empty leaves the array not empty, and later reads write nothing.
pub get_var_lvgl_version-IsRead :
    (version : List ℕ) (s : Vars)
    → get_or version 0 0 ≢ 0
    → IsRead (get_var_lvgl_version version s).0
unfolding get_var_lvgl_version
get_var_lvgl_version-IsRead version s h = elim (Bool-cases (get_or s.lvgl_version 0 0 == 0)) [
  | inl first ↦ rw first (first_of version h)
  | inr later ↦ rw later (λ e. ground arith)
]
  where
    first_of : (v : List ℕ) → get_or v 0 0 ≢ 0 → get_or (strncpy 32 v) 0 0 ≢ 0
    first_of [] h = h
    first_of (c ∷ cs) h = h

pub get_var_lvgl_version_again :
    (version : List ℕ) (s : Vars) → IsRead s → (get_var_lvgl_version version s).0 ≡ s
unfolding get_var_lvgl_version
get_var_lvgl_version_again version s h = elim (Bool-cases (get_or s.lvgl_version 0 0 == 0)) [
  | inl first ↦ absurd (h ((==_iff _ _).0 first))
  | inr later ↦ rw later refl
]
