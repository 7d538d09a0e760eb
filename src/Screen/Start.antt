-- ===== src/Screen/Start.antt =====
-- The start of the display and its tick: `lvgl_init`, `lvgl_tick` and `evdev_discovery_cb` of
-- cgo/screen.c, and the calls that reach the display while it runs. What the library's timer finds
-- in the input devices comes as steps of its own.
pub mod Runs
use Prim.Native.String.{String}
use hardware_os.Base.{ℕ, Bool, Option, none, some, List, [], ◌∷◌, if◌then◌else◌, ◌>>=◌}
use hardware_os.Base.Int.{ℤ}
use hardware_os.Ui.Hold.{Buttons}
use hardware_os.Handlers.{Handlers, ui_set_rpc_handler}
use hardware_os.Ui.Vars.{Vars, set_var_app_version, set_var_system_version, set_var_main_screen}
use hardware_os.Ui.Navigation.{Nav, Gesture}
use hardware_os.Screen.{Entry, jetkvm_ui_load_screen}
use hardware_os.Screen.Tick.{AboutLabels, VersionLabels, ui_tick}
use hardware_os.Screen.Styles.Rotation.{StyleEntry, is_rotation, lvgl_set_rotation}
use hardware_os.Screen.Layout.Fields
use hardware_os.Screen.Layout.{Handler, EventCode}
use hardware_os.Screen.Build.{Lvgl, Screens, ui_init}
use hardware_os.Screen.Wiring.{handle}
use hardware_os.Screen.Wiring.Held.{hold_event_on}

-- The calls of the library that set up the display and an input device, with their arguments.
pub data SetupCall : Type 0 where
  lv_init fbdev_create discovery_start set_group set_display add_event_cb : SetupCall
  set_resolution : ℕ → ℕ → SetupCall
  set_file : String → SetupCall
  set_rotation : ℕ → SetupCall

-- The library beside its widgets: its set-up, and the timer that `lvgl_tick` runs first.
pub record Panel (S : Type 0) : Type 0 where
  pub lvgl : Lvgl S
  pub setup : SetupCall → S → S
  pub timer_handler : S → S
  pub print : ℤ → List ℕ  -- `%d` of `sprintf`

-- The whole state of the display. `rotation` is what was last passed to `lv_display_set_rotation`.
pub record Ui (S : Type 0) : Type 0 where
  pub screens : Screens S
  pub nav : Nav
  pub rotation : ℕ
  pub buttons : Buttons
  pub handlers : Handlers

module _ {S : Type 0} (lv : Panel S) where
  abbrev setups : List SetupCall → S → S
  setups [] s = s
  setups (c ∷ cs) s = setups cs (lv.setup c s)

  -- `is_abs` says that the type of the device is LV_EVDEV_TYPE_ABS.
  unfoldable pub evdev_discovery_cb : Bool → S → S
  evdev_discovery_cb is_abs s =
      if is_abs then setups (set_group ∷ set_display ∷ add_event_cb ∷ []) s else s

  -- The rotation of the display, over its whole state.
  unfoldable pub set_display_rotation : List StyleEntry → ℕ → Ui S → Ui S
  set_display_rotation table r u =
      let d =
        lvgl_set_rotation table r (record { rotation = u.rotation; styles = u.screens.styles }) in
      let lib = if is_rotation r then lv.setup (set_rotation r) u.screens.lib else u.screens.lib in
      record u {
        screens = record u.screens { styles = d.styles; lib = lib };
        rotation = d.rotation;
      }

  -- What `lvgl_init` does before `ui_init`.
  unfoldable pub prepare_display : List StyleEntry → ℕ → Ui S → Ui S
  unfolding set_display_rotation
  prepare_display table r u =
      let made =
        setups (lv_init ∷ fbdev_create ∷ set_resolution 240 300 ∷ set_file "/dev/fb0" ∷ [])
          u.screens.lib in
      let turned =
        set_display_rotation table r (record u { screens = record u.screens { lib = made } }) in
      record turned {
        screens = record turned.screens { lib = lv.setup discovery_start turned.screens.lib };
      }

  -- The calls for logging are left out.
  unfoldable pub lvgl_init : List StyleEntry → List ℕ → ℕ → Ui S → Option (Ui S)
  unfolding prepare_display
  lvgl_init table version r u = do
    let prepared = prepare_display table r u
    started ← ui_init lv.lvgl version prepared.screens prepared.nav
    some (record prepared {
      screens = started.0;
      nav = started.1;
      handlers = ui_set_rpc_handler prepared.handlers;
    })

  -- The labels that the ticks read, if they are there.
  unfoldable pub labels_of : (ℕ → Option ℕ) → Option VersionLabels
  labels_of objects = do
    boot ← objects Fields.boot_screen_version
    system ← objects Fields.system_version
    app ← objects Fields.app_version
    lvgl ← objects Fields.lvgl_version
    some (record {
      boot_screen_version = boot;
      about = record { system_version = system; app_version = app; lvgl_version = lvgl };
    })

  -- `none` is a call through a pointer outside the table, or a label that is NULL: also one that the
  -- current screen does not have, so that `none` comes whenever the function would read NULL.
  unfoldable pub lvgl_tick : List ℕ → Ui S → Option (Ui S)
  unfolding labels_of
  lvgl_tick version u = do
    labels ← labels_of u.screens.objects
    after ←
        ui_tick lv.lvgl.labels labels version u.nav (u.screens.vars, lv.timer_handler u.screens.lib)
    some (record u { screens = record u.screens { vars = after.0; lib = after.1 } })

  -- An event with a callback: `now` is the clock of the library, and `lv_tick_elaps` the time since one
  -- of its readings. `none` is a label that is NULL.
  unfoldable pub on_event : Handler → EventCode → Gesture → ℕ → (ℕ → ℕ) → Ui S → Option (Ui S)
  on_event h code g now lv_tick_elaps u = do
    held ←
        hold_event_on lv.lvgl lv.print h u.screens.objects now lv_tick_elaps code
          (u.buttons, u.screens.lib)
    some (record u {
      nav = handle u.screens.objects h g u.screens.vars u.nav;
      buttons = held.0;
      screens = record u.screens { lib = held.1 };
    })
