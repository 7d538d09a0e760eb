-- ===== src/Screen/Build/Steps.antt =====
-- The steps of `create_screens` of eez/src/ui/screens.c: the trees of widgets, and the ticks of the two
-- screens that show a version, which read labels.
use hardware_os.Base.{ℕ, ◌≡◌, ◌≢◌, refl, Option, none, some, List, [], ◌∷◌}
use hardware_os.Screen.Layout.Fields
use hardware_os.Screen.Layout.AboutScreen.{about_screen_layout}
use hardware_os.Screen.Layout.BootScreen.{boot_screen_layout}
use hardware_os.Screen.Layout.HomeScreen.{home_screen_layout}
use hardware_os.Screen.Layout.MenuAdvancedScreen.{menu_advanced_screen_layout}
use hardware_os.Screen.Layout.MenuNetworkScreen.{menu_network_screen_layout}
use hardware_os.Screen.Layout.MenuScreen.{menu_screen_layout}
use hardware_os.Screen.Layout.NoNetworkScreen.{no_network_screen_layout}
use hardware_os.Screen.Layout.RebootScreen.{reboot_screen_layout}
use hardware_os.Screen.Layout.RebootingScreen.{rebooting_screen_layout}
use hardware_os.Screen.Layout.ResetConfigScreen.{reset_config_screen_layout}
use hardware_os.Screen.Layout.StatusScreen.{status_screen_layout}
use hardware_os.Screen.Layout.SwitchDhcpClientScreen.{switch_dhcp_client_screen_layout}
use hardware_os.Screen.Layout.{Widget}
use hardware_os.Screen.Build.{
  Lvgl, Screens, tick_boot_label, tick_about_labels, create_screen_boot_screen,
  create_screen_about_screen, create_first_screens, create_last_screens, create_screens, build,
}
use hardware_os.Ui.Vars.{Vars, get_var_lvgl_version}
use hardware_os.Screen.Tick.{
  tick_screen_boot_screen, tick_screen_about_screen, tick_screen_boot_screen_keeps,
  tick_screen_about_screen_keeps,
}
use hardware_os.Screen.Build.Sets.{assigns, build_screens, build-sets}

-- The layouts of the screens that are created before the one with the versions, and after it.
abbrev pub first_layouts : List Widget
first_layouts =
    no_network_screen_layout ∷ home_screen_layout ∷ menu_screen_layout ∷ menu_advanced_screen_layout
    ∷ menu_network_screen_layout ∷ []

abbrev pub last_layouts : List Widget
last_layouts =
    status_screen_layout ∷ reset_config_screen_layout ∷ reboot_screen_layout
    ∷ rebooting_screen_layout ∷ switch_dhcp_client_screen_layout ∷ []

-- What setting texts keeps is kept from a state to another.
abbrev pub IsKeptBy : {S : Type 0} → Lvgl S → Screens S → Screens S → Type 1
IsKeptBy {S} lv before after =
    (P : S → Type 0)
    → ((o : ℕ) (text : List ℕ) (s : S) → P s → P (lv.labels.set_text o text s))
    → P before.lib
    → P after.lib

abbrev pub same_vars : Vars → Vars
same_vars v = v

-- A tick of a screen whose labels are there sets no pointer, and only texts in the library;
-- of the variables it reads some.
pub record IsTicked {S : Type 0} (lv : Lvgl S) (before : Screens S) (reads : Vars → Vars)
    (after : Option (Screens S)) : Type 1 where
  pub result : Screens S
  pub returned : after ≡ some result
  pub kept : result.objects ≡ before.objects
  pub vars : result.vars ≡ reads before.vars
  pub lib_kept : IsKeptBy lv before result

module _ {S : Type 0} (lv : Lvgl S) where
  tick_boot_label-IsTicked :
      (label : Option ℕ) (d : Screens S)
      → label ≢ none
      → IsTicked lv d same_vars (tick_boot_label lv label d)
  unfolding tick_boot_label tick_screen_boot_screen
  tick_boot_label-IsTicked none d h = absurd (h refl)
  tick_boot_label-IsTicked (some label) d h = record {
    result = _;
    returned = refl;
    kept = refl;
    vars = refl;
    lib_kept = λ P kept. tick_screen_boot_screen_keeps lv.labels P kept label d.vars d.lib;
  }

  tick_about_labels-IsTicked :
      (version : List ℕ) (system app lvgl : Option ℕ) (d : Screens S)
      → system ≢ none
      → app ≢ none
      → lvgl ≢ none
      → IsTicked lv d
          (λ v. (get_var_lvgl_version version v).0)
          (tick_about_labels lv version system app lvgl d)
  unfolding tick_about_labels tick_screen_about_screen
  tick_about_labels-IsTicked version none app lvgl d hs ha hl = absurd (hs refl)
  tick_about_labels-IsTicked version (some system) none lvgl d hs ha hl = absurd (ha refl)
  tick_about_labels-IsTicked version (some system) (some app) none d hs ha hl = absurd (hl refl)
  tick_about_labels-IsTicked version (some system) (some app) (some lvgl) d hs ha hl = record {
    result = _;
    returned = refl;
    kept = refl;
    vars = refl;
    lib_kept = λ P kept. tick_screen_about_screen_keeps lv.labels P kept _ version d.vars d.lib;
  }

  create_screen_boot_screen-IsTicked :
      (d : Screens S)
      → IsTicked lv (build lv none boot_screen_layout d) same_vars (create_screen_boot_screen lv d)
  unfolding create_screen_boot_screen assigns
  create_screen_boot_screen-IsTicked d =
      tick_boot_label-IsTicked _ _
        (build-sets lv Fields.boot_screen_version none boot_screen_layout d refl)

  create_screen_about_screen-IsTicked :
      (version : List ℕ) (d : Screens S)
      → IsTicked lv
          (build lv none about_screen_layout d)
          (λ v. (get_var_lvgl_version version v).0)
          (create_screen_about_screen lv version d)
  unfolding create_screen_about_screen assigns
  create_screen_about_screen-IsTicked version d =
      tick_about_labels-IsTicked version _ _ _ _
        (build-sets lv Fields.system_version none about_screen_layout d refl)
        (build-sets lv Fields.app_version none about_screen_layout d refl)
        (build-sets lv Fields.lvgl_version none about_screen_layout d refl)

  -- The steps of `create_screens`, the ticks taken apart from the rest.
  pub record IsCreated (version : List ℕ) (d : Screens S) : Type 1 where
    pub boot : Screens S
    pub about : Screens S
    pub returned : create_screens lv version d ≡ some (build_screens lv last_layouts about)
    pub boot_kept :
        boot.objects
        ≡ (build lv none boot_screen_layout (record d { lib = lv.set_theme d.lib })).objects
    pub about_kept :
        about.objects
        ≡ (build lv none about_screen_layout (build_screens lv first_layouts boot)).objects
    pub about_vars :
        about.vars
        ≡ (get_var_lvgl_version version
            (build lv none about_screen_layout (build_screens lv first_layouts boot)).vars).0
    pub boot_lib :
        IsKeptBy lv (build lv none boot_screen_layout (record d { lib = lv.set_theme d.lib })) boot
    pub about_lib :
        IsKeptBy lv (build lv none about_screen_layout (build_screens lv first_layouts boot)) about

  pub create_screens-IsCreated : (version : List ℕ) (d : Screens S) → IsCreated version d
  unfolding create_screens create_first_screens create_last_screens build_screens
  create_screens-IsCreated version d =
      let boot = create_screen_boot_screen-IsTicked (record d { lib = lv.set_theme d.lib }) in
      let about =
        create_screen_about_screen-IsTicked version (build_screens lv first_layouts boot.result) in
      record {
        boot = boot.result;
        about = about.result;
        returned = simp (boot.returned, about.returned) refl;
        boot_kept = boot.kept;
        about_vars = about.vars;
        boot_lib = boot.lib_kept;
        about_lib = about.lib_kept;
        about_kept = about.kept;
      }
