-- ===== src/Tests/Ui.antt =====
-- Buttons, variables and screens at concrete inputs (eez/src/ui).
use hardware_os.Base.{ℕ, ◌+◌, ◌≤◌, ◌≡◌, refl, true, false, Option, none, some, List, [], ◌∷◌, arith}
use hardware_os.Base.Int.{negsuc}
use hardware_os.Ui.Hold.{HoldState, HoldConfig, pressed, pressing, handle_hold_action}
use hardware_os.Ui.Hold.Once.{Input, rpcs, releases, run, run_once}
use hardware_os.Ui.Vars.{
  initial, get_var_app_version, set_var_app_version, get_var_system_version, set_var_system_version,
  get_var_main_screen, set_var_main_screen,
}
use hardware_os.Ui.Navigation.{
  Nav, Gesture, left, handle_gesture_main_screen_switch, load_screen, no_network_screen,
  no_network_screen_name,
}
use hardware_os.Base.CString.{IsText}
use hardware_os.Ui.Index
use hardware_os.Ui.Index.{
  VarEntry, entry, HasVars, jetkvm_ui_set_var, jetkvm_ui_get_var,
  handle_gesture_main_screen_switch-jetkvm_ui_set_var,
}

abbrev five_seconds : HoldConfig
five_seconds = record { hold_time_seconds = 5; rpc_method = "rebootDevice"; has_widgets = true }

abbrev idle_button : HoldState
idle_button = record { start_time = 0; completed = false; lock = false }

-- A hold that goes on after its time.
abbrev long_hold : List Input
long_hold =
    record { now = 100; elapsed = λ t. 0; event = pressed }
    ∷ record { now = 5200; elapsed = λ t. 5100; event = pressing }
    ∷ record { now = 5300; elapsed = λ t. 5200; event = pressing }
    ∷ []

fires_once : rpcs (run five_seconds idle_button long_hold).1 ≡ 1
unfolding handle_hold_action
fires_once = refl

run_once_example : rpcs (run five_seconds idle_button long_hold).1 ≤ releases long_hold + 1
run_once_example = run_once five_seconds idle_button long_hold

abbrev version : List ℕ
version = b'0' ∷ b'.' ∷ b'4' ∷ []

abbrev screens : ℕ → Option ℕ
screens n = some (n + 1000)

abbrev nowhere : Nav
nowhere = record { current_screen = negsuc 0; active = none }

abbrev to_the_left : Gesture
to_the_left = record { is_gesture = true; direction = left }

-- The table of the variables, less that of the graphics library.
abbrev ui_vars : List VarEntry
ui_vars =
    entry Index.app_version get_var_app_version set_var_app_version
    ∷ entry Index.system_version get_var_system_version set_var_system_version
    ∷ entry Index.main_screen get_var_main_screen set_var_main_screen
    ∷ []

ui_vars-HasVars : HasVars ui_vars
ui_vars-HasVars = record { app = refl; system = refl; screen = refl }

no_network : IsText no_network_screen_name
no_network = ground arith

handle_gesture_main_screen_switch-jetkvm_ui_set_var_example :
    handle_gesture_main_screen_switch screens to_the_left left
      (jetkvm_ui_set_var ui_vars Index.main_screen no_network_screen_name initial)
      nowhere
    ≡ load_screen screens no_network_screen nowhere
handle_gesture_main_screen_switch-jetkvm_ui_set_var_example =
    handle_gesture_main_screen_switch-jetkvm_ui_set_var screens ui_vars no_network_screen_name
      to_the_left left initial nowhere ui_vars-HasVars no_network
