-- ===== src/Screen/Wiring/Abstract.antt =====
-- The screens as a machine without pointers: which screen is shown after which events. The handlers of
-- eez/src/ui/actions.c implement it.
use hardware_os.Base.{
  ℕ, ◌≡◌, ◌<◌, ◌↔◌, sym, ◌∙◌, ap, inl, inr, Option, List, [], ◌∷◌, arith, Option-cases,
  if◌then◌else◌, ◌&&◌,
}
use hardware_os.Ui.Vars.{Vars, get_var_main_screen}
use hardware_os.Ui.Navigation.{
  Nav, Gesture, Direction, left, right, Action, action, load_screen, get_lvgl_object_from_index,
  same_direction, handle_gesture_screen_switch, handle_gesture_main_screen_switch, bytes_eq,
  home_screen_name, no_network_screen_name, switch_to_menu, switch_to_advanced_menu,
  switch_to_status, switch_to_about, switch_to_reset_config, switch_to_dhcpc, switch_to_reboot,
  menu_screen_gesture, menu_advanced_screen_gesture, reset_config_screen_gesture,
  home_screen_gesture, about_screen_gesture,
}
use hardware_os.Screen.Layout.Fields
use hardware_os.Screen.Layout.{Handler, navigates}
use hardware_os.Screen.Build.{Lvgl, Screens}
use hardware_os.Screen.Wiring.{handle}
use hardware_os.Screen.Wiring.Shown.{IsLaidOut, IsStarted, ui_init-IsLaidOut}

-- A gesture in a direction opens the main menu.
abbrev pub menu_by : Direction → Gesture → ℕ → ℕ
menu_by direction g screen =
    if g.is_gesture && same_direction g.direction direction then Fields.menu_screen else screen

-- The main screen, if the variable has the name of one.
abbrev pub main_screen_of : Vars → ℕ → ℕ
main_screen_of vars screen =
    if bytes_eq (get_var_main_screen vars) home_screen_name
    then Fields.home_screen
    else (if bytes_eq (get_var_main_screen vars) no_network_screen_name
        then Fields.no_network_screen
        else screen)

-- The screen that is shown after an event, from the one before.
abbrev pub screen_by : Action → Gesture → Vars → ℕ → ℕ
screen_by switch_to_menu g vars screen = Fields.menu_screen
screen_by switch_to_advanced_menu g vars screen = Fields.menu_advanced_screen
screen_by switch_to_status g vars screen = Fields.status_screen
screen_by switch_to_about g vars screen = Fields.about_screen
screen_by switch_to_reset_config g vars screen = Fields.reset_config_screen
screen_by switch_to_dhcpc g vars screen = Fields.switch_dhcp_client_screen
screen_by switch_to_reboot g vars screen = Fields.reboot_screen
screen_by menu_screen_gesture g vars screen = main_screen_of vars screen
screen_by menu_advanced_screen_gesture g vars screen = menu_by right g screen
screen_by reset_config_screen_gesture g vars screen = menu_by right g screen
screen_by home_screen_gesture g vars screen = menu_by left g screen
screen_by about_screen_gesture g vars screen = menu_by right g screen

abbrev pub screen_after : List (Handler × Gesture × Vars) → ℕ → ℕ
screen_after [] screen = screen
screen_after ((navigates a, g, vars) ∷ rest) screen = screen_after rest (screen_by a g vars screen)
screen_after (_ ∷ rest) screen = screen_after rest screen

abbrev pub run_handlers : (ℕ → Option ℕ) → List (Handler × Gesture × Vars) → Nav → Nav
run_handlers objects [] nav = nav
run_handlers objects ((h, g, vars) ∷ rest) nav =
    run_handlers objects rest (handle objects h g vars nav)

module _ (objects : ℕ → Option ℕ) where
  action-screen_by :
      (a : Action) (g : Gesture) (vars : Vars) (nav : Nav) (screen : ℕ)
      → nav.active ≡ objects screen
      → (action objects a g vars nav).active ≡ objects (screen_by a g vars screen)
  unfolding action load_screen get_lvgl_object_from_index handle_gesture_screen_switch
      handle_gesture_main_screen_switch
  action-screen_by a g vars nav screen shown = ground arith

  run_handlers-screen_after :
      (events : List (Handler × Gesture × Vars)) (nav : Nav) (screen : ℕ)
      → nav.active ≡ objects screen
      → (run_handlers objects events nav).active ≡ objects (screen_after events screen)
  unfolding handle
  run_handlers-screen_after [] nav screen shown = shown
  run_handlers-screen_after ((navigates a, g, vars) ∷ rest) nav screen shown =
      run_handlers-screen_after rest _ _ (action-screen_by a g vars nav screen shown)
  run_handlers-screen_after ((_, g, vars) ∷ rest) nav screen shown =
      run_handlers-screen_after rest nav screen shown

  same_field : (f g : ℕ) → IsLaidOut objects → f < Fields.fields → objects g ≡ objects f → g ≡ f
  same_field f g laid lt e = elim (Option-cases (objects f)) [
    | inl unset ↦ absurd (laid.all f lt unset)
    | inr (o, set) ↦ laid.apart g f o (e ∙ set) set
  ]

-- If no pointer is set before and the graphics library keeps its laws, then after `ui_init` and any
-- events the object of a screen is shown exactly if the screen is that of the machine without pointers.
pub ui_init-screen_after :
    {S : Type 0} (lv : Lvgl S) (IsAlive : ℕ → S → Type 0) (version : List ℕ) (d created : Screens S)
    (nav start : Nav) (events : List (Handler × Gesture × Vars)) (screen : ℕ)
    → IsStarted lv IsAlive version d nav created start
    → screen < Fields.fields
    → ((run_handlers created.objects events start).active ≡ created.objects screen)
      ↔ (screen_after events Fields.boot_screen ≡ screen)
ui_init-screen_after lv IsAlive version d created nav start events screen h lt =
    let (laid, boot) = ui_init-IsLaidOut lv IsAlive version d created nav start h in
    let shown = run_handlers-screen_after created.objects events start Fields.boot_screen boot in
    (
      λ e. same_field created.objects screen _ laid lt (sym shown ∙ e),
      λ e. shown ∙ ap created.objects e,
    )
