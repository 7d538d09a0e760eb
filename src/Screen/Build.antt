-- ===== src/Screen/Build.antt =====
-- Running the layouts: the functions `create_screen_…` and `create_screens` of eez/src/ui/screens.c,
-- and the whole `ui_init` of eez/src/ui/ui.c. The graphics library is an argument; the theme that
-- `create_screens` sets first is the library's own.
pub mod Apart
pub mod Complete
pub mod Sets
pub mod Steps
pub mod Versions
use hardware_os.Base.{ℕ, ◌==◌, Option, none, some, List, [], ◌∷◌, if◌then◌else◌, ◌>>=◌}
use hardware_os.Base.CString.{codes}
use hardware_os.Ui.Vars.{Vars}
use hardware_os.Ui.Navigation.{Nav}
use hardware_os.Ui.Navigation
use hardware_os.Screen.{Labels}
use hardware_os.Screen.Styles.{StyleId}
use hardware_os.Screen.Styles.Getters.{Styles, StyleLib, get_style}
use hardware_os.Screen.Tick.{AboutLabels, tick_screen_boot_screen, tick_screen_about_screen}
use hardware_os.Screen.Layout.Fields
use hardware_os.Screen.Layout.{
  Kind, Call, add_style, label_set_text, Widget, widget, Widgets, leaf, ◌▹◌,
}
use hardware_os.Screen.Layout.AboutScreen.{about_screen_layout}
use hardware_os.Screen.Layout.BootScreen.{boot_screen_layout}
use hardware_os.Screen.Layout.HomeScreen.{home_screen_layout}
use hardware_os.Screen.Layout.MenuAdvancedScreen.{menu_advanced_screen_layout}
use hardware_os.Screen.Layout.MenuNetworkScreen.{menu_network_screen_layout}
use hardware_os.Screen.Layout.MenuScreen.{menu_screen_layout}
use hardware_os.Screen.Layout.NoNetworkScreen.{no_network_screen_layout}
use hardware_os.Screen.Layout.RebootScreen.{reboot_screen_layout}
use hardware_os.Screen.Layout.RebootingScreen.{rebooting_screen_layout}
use hardware_os.Screen.Layout.ResetConfigScreen.{reset_config_screen_layout}
use hardware_os.Screen.Layout.StatusScreen.{status_screen_layout}
use hardware_os.Screen.Layout.SwitchDhcpClientScreen.{switch_dhcp_client_screen_layout}

-- The graphics library over its state S. A creation takes the kind and the parent, NULL for a screen,
-- and returns the new object: when there is no memory for one, the library stops the program.
pub record Lvgl (S : Type 0) : Type 0 where
  pub create : Kind → Option ℕ → S → S × ℕ
  pub labels : Labels S
  pub styles : StyleLib S
  pub set_theme : S → S
  pub call : Call → ℕ → S → S  -- each call but those of the labels' texts and of the styles

-- What the functions change: `objects`, the static pointers of styles.c, the variables, and the state
-- of the library.
pub record Screens (S : Type 0) : Type 0 where
  pub objects : ℕ → Option ℕ
  pub styles : Styles
  pub vars : Vars
  pub lib : S

abbrev pub no_objects : ℕ → Option ℕ
no_objects f = none

abbrev pub put_object : ℕ → ℕ → (ℕ → Option ℕ) → ℕ → Option ℕ
put_object f o objects g = if g == f then some o else objects g

module _ {S : Type 0} (lv : Lvgl S) where
  unfoldable pub call_on : ℕ → Call → Screens S → Screens S
  call_on o (add_style id) d = record d {
    styles = get_style id d.styles;
    lib = lv.styles.obj_add_style o id d.lib;
  }
  call_on o (label_set_text text) d = record d { lib = lv.labels.set_text o (codes text) d.lib }
  call_on o c d = record d { lib = lv.call c o d.lib }

  unfoldable pub calls_on : ℕ → List Call → Screens S → Screens S
  unfolding call_on
  calls_on o [] d = d
  calls_on o (c ∷ cs) d = calls_on o cs (call_on o c d)

  -- `objects.… = obj;`, where the widget has a field.
  unfoldable pub assign : Option ℕ → ℕ → Screens S → Screens S
  assign none o d = d
  assign (some f) o d = record d { objects = put_object f o d.objects }

  unfoldable mutual
    pub build : Option ℕ → Widget → Screens S → Screens S
    build parent (widget kind field calls inside) d =
        let (s, o) = lv.create kind parent d.lib in
        build_all o inside (calls_on o calls (assign field o (record d { lib = s })))

    pub build_all : ℕ → Widgets → Screens S → Screens S
    build_all parent leaf d = d
    build_all parent (w ▹ ws) d = build_all parent ws (build (some parent) w d)

  -- The last lines of the functions, `none` if the pointer to a label is NULL.
  pub tick_boot_label : Option ℕ → Screens S → Option (Screens S)
  tick_boot_label none d = none
  tick_boot_label (some label) d =
      let (vars, s) = tick_screen_boot_screen lv.labels label (d.vars, d.lib) in
      some (record d { vars = vars; lib = s })

  pub tick_about_labels : List ℕ → Option ℕ → Option ℕ → Option ℕ → Screens S → Option (Screens S)
  tick_about_labels version (some system) (some app) (some lvgl) d =
      let labels : AboutLabels = record {
        system_version = system;
        app_version = app;
        lvgl_version = lvgl;
      } in
      let (vars, s) = tick_screen_about_screen lv.labels labels version (d.vars, d.lib) in
      some (record d { vars = vars; lib = s })
  tick_about_labels version _ _ _ d = none

  unfoldable pub create_screen_boot_screen : Screens S → Option (Screens S)
  unfolding tick_boot_label
  create_screen_boot_screen d =
      let built = build none boot_screen_layout d in
      tick_boot_label (built.objects Fields.boot_screen_version) built

  unfoldable pub create_screen_about_screen : List ℕ → Screens S → Option (Screens S)
  unfolding tick_about_labels
  create_screen_about_screen version d =
      let built = build none about_screen_layout d in
      tick_about_labels version (built.objects Fields.system_version)
        (built.objects Fields.app_version) (built.objects Fields.lvgl_version) built

  abbrev pub create_screen_no_network_screen : Screens S → Screens S
  create_screen_no_network_screen d = build none no_network_screen_layout d

  abbrev pub create_screen_home_screen : Screens S → Screens S
  create_screen_home_screen d = build none home_screen_layout d

  abbrev pub create_screen_menu_screen : Screens S → Screens S
  create_screen_menu_screen d = build none menu_screen_layout d

  abbrev pub create_screen_menu_advanced_screen : Screens S → Screens S
  create_screen_menu_advanced_screen d = build none menu_advanced_screen_layout d

  abbrev pub create_screen_menu_network_screen : Screens S → Screens S
  create_screen_menu_network_screen d = build none menu_network_screen_layout d

  abbrev pub create_screen_status_screen : Screens S → Screens S
  create_screen_status_screen d = build none status_screen_layout d

  abbrev pub create_screen_reset_config_screen : Screens S → Screens S
  create_screen_reset_config_screen d = build none reset_config_screen_layout d

  abbrev pub create_screen_reboot_screen : Screens S → Screens S
  create_screen_reboot_screen d = build none reboot_screen_layout d

  abbrev pub create_screen_rebooting_screen : Screens S → Screens S
  create_screen_rebooting_screen d = build none rebooting_screen_layout d

  abbrev pub create_screen_switch_dhcp_client_screen : Screens S → Screens S
  create_screen_switch_dhcp_client_screen d = build none switch_dhcp_client_screen_layout d

  pub create_first_screens : Screens S → Screens S
  create_first_screens d = create_screen_menu_network_screen (
      create_screen_menu_advanced_screen
        (create_screen_menu_screen (create_screen_home_screen (create_screen_no_network_screen d))))

  pub create_last_screens : Screens S → Screens S
  create_last_screens d = create_screen_switch_dhcp_client_screen (
      create_screen_rebooting_screen (
        create_screen_reboot_screen
          (create_screen_reset_config_screen (create_screen_status_screen d))))

  -- `version` is that of the library.
  unfoldable pub create_screens : List ℕ → Screens S → Option (Screens S)
  unfolding create_screen_boot_screen create_screen_about_screen create_first_screens
      create_last_screens
  create_screens version d = do
    boot ← create_screen_boot_screen (record d { lib = lv.set_theme d.lib })
    about ← create_screen_about_screen version (create_first_screens boot)
    some (create_last_screens about)

  unfoldable pub ui_init : List ℕ → Screens S → Nav → Option (Screens S × Nav)
  unfolding create_screens
  ui_init version d nav = do
    created ← create_screens version d
    some (created, Navigation.ui_init created.objects nav)
