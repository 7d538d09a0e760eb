-- ===== src/Ui/Navigation.antt =====
-- Screens and the gestures between them: eez/src/ui/ui.c and the first half of
-- eez/src/ui/actions.c. The build without EEZ Flow is modelled, the one that is shipped.
use hardware_os.Base.{
  ℕ, ◌≡◌, refl, Bool, true, false, ◌&&◌, Option, none, List, [], ◌∷◌, arith, ◌==◌, if◌then◌else◌,
}
use hardware_os.Base.Int.{ℤ, pos, negsuc, ◌-ℤ◌, ◌≤ℤ◌}
use hardware_os.Ui.Vars.{Vars, get_var_main_screen}

-- `enum ScreensEnum`, of which actions.c names these.
abbrev pub boot_screen : ℕ
boot_screen = 1

abbrev pub no_network_screen : ℕ
no_network_screen = 2

abbrev pub home_screen : ℕ
home_screen = 3

abbrev pub menu_screen : ℕ
menu_screen = 4

abbrev pub menu_advanced_screen : ℕ
menu_advanced_screen = 5

abbrev pub about_screen : ℕ
about_screen = 7

abbrev pub status_screen : ℕ
status_screen = 8

abbrev pub reset_config_screen : ℕ
reset_config_screen = 9

abbrev pub reboot_screen : ℕ
reboot_screen = 10

abbrev pub switch_dhcp_client_screen : ℕ
switch_dhcp_client_screen = 12

pub data Direction : Type 0 where
  left right top bottom : Direction

-- What an event handler can ask: whether the event is LV_EVENT_GESTURE, and the gesture's direction.
pub record Gesture : Type 0 where
  pub is_gesture : Bool
  pub direction : Direction

abbrev pub same_direction : Direction → Direction → Bool
same_direction left left = true
same_direction right right = true
same_direction top top = true
same_direction bottom bottom = true
same_direction _ _ = false

-- `active` is the screen that the graphics library shows, an object; `none` is NULL.
pub record Nav : Type 0 where
  pub current_screen : ℤ
  pub active : Option ℕ

abbrev pub bytes_eq : List ℕ → List ℕ → Bool
bytes_eq [] [] = true
bytes_eq (x ∷ xs) (y ∷ ys) = (x == y) && bytes_eq xs ys
bytes_eq _ _ = false

abbrev pub home_screen_name : List ℕ
home_screen_name = b'h' ∷ b'o' ∷ b'm' ∷ b'e' ∷ b'_' ∷ b's' ∷ b'c' ∷ b'r' ∷ b'e' ∷ b'e' ∷ b'n' ∷ []

abbrev pub no_network_screen_name : List ℕ
no_network_screen_name =
    b'n' ∷ b'o' ∷ b'_' ∷ b'n' ∷ b'e' ∷ b't' ∷ b'w' ∷ b'o' ∷ b'r' ∷ b'k' ∷ b'_' ∷ b's' ∷ b'c' ∷ b'r'
    ∷ b'e' ∷ b'e' ∷ b'n' ∷ []

-- `objects` is the structure of object pointers, read as an array; screens.c fills it.
module _ (objects : ℕ → Option ℕ) where
  unfoldable pub get_lvgl_object_from_index : ℤ → Option ℕ
  get_lvgl_object_from_index (negsuc n) = none
  get_lvgl_object_from_index (pos n) = objects n

  unfoldable pub load_screen : ℕ → Nav → Nav
  unfolding get_lvgl_object_from_index
  load_screen screen_id s =
      let current = pos screen_id -ℤ pos 1 in
      record s { current_screen = current; active = get_lvgl_object_from_index current }

  unfoldable pub ui_init : Nav → Nav
  unfolding load_screen
  ui_init s = load_screen boot_screen s

  -- The result is the `int` returned: whether the screen was switched.
  unfoldable pub handle_gesture_screen_switch : Gesture → Direction → ℕ → Nav → Nav × ℕ
  unfolding load_screen
  handle_gesture_screen_switch g direction screen_id s =
      if g.is_gesture
      then (if same_direction g.direction direction then (load_screen screen_id s, 1) else (s, 0))
      else (s, 0)

  -- Neither the event nor the direction is read.
  unfoldable pub handle_gesture_main_screen_switch : Gesture → Direction → Vars → Nav → Nav
  unfolding load_screen
  handle_gesture_main_screen_switch g direction vars s =
      let main_screen = get_var_main_screen vars in
      if bytes_eq main_screen home_screen_name
      then load_screen home_screen s
      else (if bytes_eq main_screen no_network_screen_name
          then load_screen no_network_screen s
          else s)

-- The event handlers of actions.c that navigate.
pub data Action : Type 0 where
  switch_to_menu switch_to_advanced_menu switch_to_status switch_to_about switch_to_reset_config
        switch_to_dhcpc switch_to_reboot menu_screen_gesture menu_advanced_screen_gesture
        reset_config_screen_gesture home_screen_gesture about_screen_gesture :
      Action

module _ (objects : ℕ → Option ℕ) where
  unfoldable pub action : Action → Gesture → Vars → Nav → Nav
  unfolding load_screen handle_gesture_screen_switch handle_gesture_main_screen_switch
  action switch_to_menu g vars s = load_screen objects menu_screen s
  action switch_to_advanced_menu g vars s = load_screen objects menu_advanced_screen s
  action switch_to_status g vars s = load_screen objects status_screen s
  action switch_to_about g vars s = load_screen objects about_screen s
  action switch_to_reset_config g vars s = load_screen objects reset_config_screen s
  action switch_to_dhcpc g vars s = load_screen objects switch_dhcp_client_screen s
  action switch_to_reboot g vars s = load_screen objects reboot_screen s
  action menu_screen_gesture g vars s = handle_gesture_main_screen_switch objects g right vars s
  action menu_advanced_screen_gesture g vars s =
      (handle_gesture_screen_switch objects g right menu_screen s).0
  action reset_config_screen_gesture g vars s =
      (handle_gesture_screen_switch objects g right menu_screen s).0
  action home_screen_gesture g vars s =
      (handle_gesture_screen_switch objects g left menu_screen s).0
  action about_screen_gesture g vars s =
      (handle_gesture_screen_switch objects g right menu_screen s).0

  -- The current screen is one of the twelve, and it is the one that is shown.
  pub record IsShown (s : Nav) : Type 0 where
    pub lower : pos 0 ≤ℤ s.current_screen
    pub upper : s.current_screen ≤ℤ pos 11
    pub shown : s.active ≡ get_lvgl_object_from_index objects s.current_screen

  abbrev pub run_actions : List (Action × Gesture × Vars) → Nav → Nav
  run_actions [] s = s
  run_actions ((a, g, vars) ∷ rest) s = run_actions rest (action a g vars s)

  action-IsShown :
      (a : Action) (g : Gesture) (vars : Vars) (s : Nav) → IsShown s → IsShown (action a g vars s)
  unfolding action
  action-IsShown a g vars s v = ground arith

  run_actions_from :
      (acts : List (Action × Gesture × Vars)) (s : Nav) → IsShown s → IsShown (run_actions acts s)
  run_actions_from [] s v = v
  run_actions_from ((a, g, vars) ∷ rest) s v =
      run_actions_from rest (action a g vars s) (action-IsShown a g vars s v)

  -- From `ui_init` on, whatever handlers run and whatever the gestures and the variables are, the
  -- current screen is one of the twelve and it is the one that is shown.
  pub run_actions-IsShown :
      (acts : List (Action × Gesture × Vars)) (s : Nav)
      → IsShown (run_actions acts (ui_init objects s))
  unfolding ui_init get_lvgl_object_from_index
  run_actions-IsShown acts s =
      run_actions_from acts (ui_init objects s)
        (record { lower = omega arith; upper = omega arith; shown = refl })
