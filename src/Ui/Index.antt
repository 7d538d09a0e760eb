-- ===== src/Ui/Index.antt =====
-- Variables by name: `jetkvm_ui_set_var` and `jetkvm_ui_get_var` of cgo/ctrl.c. The table `ui_vars`
-- is generated by the build from vars.h, and is an argument.
use hardware_os.Base.{
  ℕ, ◌≡◌, refl, ap, ◌∙◌, inl, inr, Option, none, some, List, [], ◌∷◌, if◌then◌else◌, take,
  Bool-cases,
}
use hardware_os.Base.CString.{IsText, codes}
use hardware_os.Ui.Vars.{
  Vars, get_var_app_version, set_var_app_version, get_var_system_version, set_var_system_version,
  get_var_main_screen, set_var_main_screen, get-set,
}
use hardware_os.Ui.Navigation.{
  Nav, Gesture, Direction, bytes_eq, home_screen, home_screen_name, no_network_screen,
  no_network_screen_name, load_screen, handle_gesture_main_screen_switch,
}

-- An entry of `ui_vars`. A getter may write: that of lvgl_version does.
pub record VarEntry : Type 0 where
  pub name : List ℕ
  pub getter : Vars → Vars × List ℕ
  pub setter : List ℕ → Vars → Vars

unfoldable pub jetkvm_ui_set_var : List VarEntry → List ℕ → List ℕ → Vars → Vars
jetkvm_ui_set_var [] name value s = s
jetkvm_ui_set_var (e ∷ es) name value s =
    if bytes_eq e.name name then e.setter value s else jetkvm_ui_set_var es name value s

got : Vars × List ℕ → Vars × Option (List ℕ)
got (s, text) = (s, some text)

unfoldable pub jetkvm_ui_get_var : List VarEntry → List ℕ → Vars → Vars × Option (List ℕ)
unfolding got
jetkvm_ui_get_var [] name s = (s, none)
jetkvm_ui_get_var (e ∷ es) name s =
    if bytes_eq e.name name then got (e.getter s) else jetkvm_ui_get_var es name s

abbrev find_var : List VarEntry → List ℕ → Option VarEntry
find_var [] name = none
find_var (e ∷ es) name = if bytes_eq e.name name then some e else find_var es name

-- The entry that the build makes for a variable whose getter does not write.
abbrev pub entry : List ℕ → (Vars → List ℕ) → (List ℕ → Vars → Vars) → VarEntry
entry name get set = record { name = name; getter = λ s. (s, get s); setter = set }

abbrev pub app_version : List ℕ
app_version = codes "app_version"

abbrev pub system_version : List ℕ
system_version = codes "system_version"

abbrev pub main_screen : List ℕ
main_screen = codes "main_screen"

-- What the build promises of the table: the variables of vars.h are in it under their names.
pub record HasVars (table : List VarEntry) : Type 0 where
  pub app :
      find_var table app_version ≡ some (entry app_version get_var_app_version set_var_app_version)
  pub system :
      find_var table system_version
      ≡ some (entry system_version get_var_system_version set_var_system_version)
  pub screen :
      find_var table main_screen ≡ some (entry main_screen get_var_main_screen set_var_main_screen)

jetkvm_ui_set_var-find_var :
    (table : List VarEntry) (name value : List ℕ) (e : VarEntry) (s : Vars)
    → find_var table name ≡ some e
    → jetkvm_ui_set_var table name value s ≡ e.setter value s
unfolding jetkvm_ui_set_var
jetkvm_ui_set_var-find_var [] name value e s found = cc
jetkvm_ui_set_var-find_var (x ∷ xs) name value e s found =
    elim (Bool-cases (bytes_eq x.name name)) [
      | inl here ↦
          let hit : some x ≡ some e = simp here at found in
          let same : x ≡ e = cc in rw here (ap (λ (y : VarEntry). y.setter value s) same)
      | inr later ↦ rw later (jetkvm_ui_set_var-find_var xs name value e s (simp later at found))
    ]

jetkvm_ui_get_var-find_var :
    (table : List VarEntry) (name : List ℕ) (e : VarEntry) (s : Vars)
    → find_var table name ≡ some e
    → jetkvm_ui_get_var table name s ≡ got (e.getter s)
unfolding jetkvm_ui_get_var
jetkvm_ui_get_var-find_var [] name e s found = cc
jetkvm_ui_get_var-find_var (x ∷ xs) name e s found = elim (Bool-cases (bytes_eq x.name name)) [
  | inl here ↦
      let hit : some x ≡ some e = simp here at found in
      let same : x ≡ e = cc in rw here (ap (λ (y : VarEntry). got (y.getter s)) same)
  | inr later ↦ rw later (jetkvm_ui_get_var-find_var xs name e s (simp later at found))
]

-- A variable that is set by name and then read by name gives the text back, cut to 99 characters of a
-- version and 31 of the name of the main screen, if the table holds the variables under their names.
jetkvm_ui_get_var-jetkvm_ui_set_var :
    (table : List VarEntry) (value : List ℕ) (s : Vars)
    → HasVars table
    → IsText value
    → ((jetkvm_ui_get_var table app_version (jetkvm_ui_set_var table app_version value s)).1
        ≡ some (take 99 value))
      × ((jetkvm_ui_get_var table system_version (jetkvm_ui_set_var table system_version value s)).1
          ≡ some (take 99 value))
      × ((jetkvm_ui_get_var table main_screen (jetkvm_ui_set_var table main_screen value s)).1
          ≡ some (take 31 value))
unfolding got
jetkvm_ui_get_var-jetkvm_ui_set_var table value s has text =
    let (app, system, screen) = get-set value s text in
    (
      through app_version (entry app_version get_var_app_version set_var_app_version) has.app
          ∙ ap some app,
      through system_version (entry system_version get_var_system_version set_var_system_version)
            has.system
          ∙ ap some system,
      through main_screen (entry main_screen get_var_main_screen set_var_main_screen) has.screen
          ∙ ap some screen,
    )
  where
    through :
        (name : List ℕ) (e : VarEntry)
        → find_var table name ≡ some e
        → (jetkvm_ui_get_var table name (jetkvm_ui_set_var table name value s)).1
          ≡ some (e.getter (e.setter value s)).1
    through name e found =
        rw
          (
            jetkvm_ui_set_var-find_var table name value e s found,
            jetkvm_ui_get_var-find_var table name e (e.setter value s) found,
          )
          refl

-- Once the main screen is set by name to a text without a terminator inside, a gesture back to it leads
-- to the screen that the first 31 characters of the text name, which is the home screen or that without
-- a network, and any other text leads nowhere, if the table holds the variables under their names.
pub handle_gesture_main_screen_switch-jetkvm_ui_set_var :
    (objects : ℕ → Option ℕ) (table : List VarEntry) (value : List ℕ) (g : Gesture) (d : Direction)
    (vars : Vars) (s : Nav)
    → HasVars table
    → IsText value
    → handle_gesture_main_screen_switch objects g d
        (jetkvm_ui_set_var table main_screen value vars)
        s
      ≡ (if bytes_eq (take 31 value) home_screen_name
          then load_screen objects home_screen s
          else (if bytes_eq (take 31 value) no_network_screen_name
              then load_screen objects no_network_screen s
              else s))
unfolding handle_gesture_main_screen_switch
handle_gesture_main_screen_switch-jetkvm_ui_set_var objects table value g d vars s has text =
    let (app, system, screen) = get-set value vars text in
    rw
      (
        jetkvm_ui_set_var-find_var table main_screen value
            (entry main_screen get_var_main_screen set_var_main_screen) vars has.screen,
        screen,
      )
      refl
