-- ===== src/Screen/Start/Runs.antt =====
-- Runs of the display: from `lvgl_init` on, ticks, events and calls of the firmware in any order.
use hardware_os.Base.{
  ℕ, ◌≡◌, ◌≢◌, ◌<◌, refl, inl, inr, Option, none, some, List, [], ◌∷◌, ◌>>=◌, arith, Option-cases,
}
use hardware_os.Base.Int.{pos, ◌≤ℤ◌}
use hardware_os.Ui.Vars.{Vars, set_var_app_version, set_var_system_version, set_var_main_screen}
use hardware_os.Ui.Navigation
use hardware_os.Ui.Navigation.{
  Nav, Gesture, Action, action, load_screen, handle_gesture_screen_switch,
  handle_gesture_main_screen_switch,
}
use hardware_os.Screen.{Entry, jetkvm_ui_load_screen}
use hardware_os.Screen.Tick.{VersionLabels, ui_tick, tick_screen, tick_screen_within}
use hardware_os.Screen.Styles.Rotation.{StyleEntry}
use hardware_os.Screen.Layout.Fields
use hardware_os.Screen.Layout.{Handler, EventCode, navigates}
use hardware_os.Screen.Build.{Screens, ui_init}
use hardware_os.Screen.Build.Complete.{create_screens-IsComplete}
use hardware_os.Screen.Start.{
  Panel, Ui, set_display_rotation, prepare_display, lvgl_init, labels_of, lvgl_tick, on_event,
}
use hardware_os.Screen.Wiring.{handle}
use hardware_os.Screen.Wiring.Held.{set_object, hold_event_on-Returns}

-- What happens to the display: a tick, an event handler, or a call from the firmware.
pub data UiStep : Type 0 where
  ticks : UiStep
  receives : Handler → EventCode → Gesture → ℕ → (ℕ → ℕ) → UiStep
  sets_app_version sets_system_version sets_main_screen : List ℕ → UiStep
  loads : List Entry → List ℕ → UiStep
  rotates : List StyleEntry → ℕ → UiStep

module _ {S : Type 0} (lv : Panel S) (version : List ℕ) where
  abbrev with_vars : (Vars → Vars) → Ui S → Ui S
  with_vars f u = record u { screens = record u.screens { vars = f u.screens.vars } }

  ui_step : UiStep → Ui S → Option (Ui S)
  ui_step ticks u = lvgl_tick lv version u
  ui_step (receives h code g now lv_tick_elaps) u = on_event lv h code g now lv_tick_elaps u
  ui_step (sets_app_version value) u = some (with_vars (set_var_app_version value) u)
  ui_step (sets_system_version value) u = some (with_vars (set_var_system_version value) u)
  ui_step (sets_main_screen value) u = some (with_vars (set_var_main_screen value) u)
  ui_step (loads table name) u =
      some
        (record u { nav = record u.nav { active = jetkvm_ui_load_screen table name u.nav.active } })
  ui_step (rotates table r) u = some (set_display_rotation lv table r u)

  unfoldable pub ui_steps : List UiStep → Ui S → Option (Ui S)
  unfolding ui_step
  ui_steps [] u = some u
  ui_steps (st ∷ sts) u = do after ← ui_step st u; ui_steps sts after

  -- The pointers are set, and the current screen has a number.
  record IsReady (u : Ui S) : Type 0 where
    all : (f : ℕ) → f < Fields.fields → u.screens.objects f ≢ none
    lower : pos 0 ≤ℤ u.nav.current_screen
    upper : u.nav.current_screen ≤ℤ pos 11

  abbrev Returns : Option (Ui S) → Type 0
  Returns o = (u : Ui S) × (o ≡ some u) × IsReady u

  action-IsReady :
      (objects : ℕ → Option ℕ) (a : Action) (g : Gesture) (vars : Vars) (nav : Nav)
      → pos 0 ≤ℤ nav.current_screen
      → nav.current_screen ≤ℤ pos 11
      → let after = action objects a g vars nav in
        (pos 0 ≤ℤ after.current_screen) × (after.current_screen ≤ℤ pos 11)
  unfolding action load_screen handle_gesture_screen_switch handle_gesture_main_screen_switch
  action-IsReady objects a g vars nav lo hi = ground arith

  handle-IsReady :
      (objects : ℕ → Option ℕ) (h : Handler) (g : Gesture) (vars : Vars) (nav : Nav)
      → pos 0 ≤ℤ nav.current_screen
      → nav.current_screen ≤ℤ pos 11
      → let after = handle objects h g vars nav in
        (pos 0 ≤ℤ after.current_screen) × (after.current_screen ≤ℤ pos 11)
  unfolding handle
  handle-IsReady objects (navigates a) g vars nav lo hi = action-IsReady objects a g vars nav lo hi
  handle-IsReady objects _ g vars nav lo hi = (lo, hi)

  labels_of-IsSet :
      (objects : ℕ → Option ℕ)
      → ((f : ℕ) → f < Fields.fields → objects f ≢ none)
      → (labels : VersionLabels) × (labels_of lv objects ≡ some labels)
  unfolding labels_of
  labels_of-IsSet objects all =
      let (_, boot) = set_object _ (all Fields.boot_screen_version (omega arith)) in
      let (_, system) = set_object _ (all Fields.system_version (omega arith)) in
      let (_, app) = set_object _ (all Fields.app_version (omega arith)) in
      let (_, lvgl) = set_object _ (all Fields.lvgl_version (omega arith)) in
      rw (boot, system, app, lvgl) (_, refl)

  tick-Returns : (u : Ui S) → IsReady u → Returns (lvgl_tick lv version u)
  unfolding lvgl_tick ui_tick
  tick-Returns u ready =
      let (labels, found) = labels_of-IsSet u.screens.objects ready.all in
      let t : Vars × S = (u.screens.vars, lv.timer_handler u.screens.lib) in
      elim (Option-cases (tick_screen lv.lvgl.labels labels version u.nav.current_screen t)) [
        | inl out ↦
            absurd
              (tick_screen_within lv.lvgl.labels labels version _ t ready.lower ready.upper out)
        | inr (after, ticked) ↦
            rw (found, ticked)
              (_, refl, record { all = ready.all; lower = ready.lower; upper = ready.upper })
      ]

  step-Returns : (st : UiStep) (u : Ui S) → IsReady u → Returns (ui_step st u)
  unfolding ui_step set_display_rotation on_event
  step-Returns ticks u ready = tick-Returns u ready
  step-Returns (receives h code g now lv_tick_elaps) u ready =
      let (lo, hi) =
        handle-IsReady u.screens.objects h g u.screens.vars u.nav ready.lower ready.upper in
      let (_, returned) =
        hold_event_on-Returns lv.lvgl lv.print h u.screens.objects now lv_tick_elaps code
          (u.buttons, u.screens.lib) ready.all in
      rw returned (_, refl, record { all = ready.all; lower = lo; upper = hi })
  step-Returns st u ready =
      (_, refl, record { all = ready.all; lower = ready.lower; upper = ready.upper })

  steps-Returns : (sts : List UiStep) (u : Ui S) → IsReady u → Returns (ui_steps sts u)
  unfolding ui_steps
  steps-Returns [] u ready = (u, refl, ready)
  steps-Returns (st ∷ sts) u ready =
      let (after, returned, ready') = step-Returns st u ready in
      rw returned (steps-Returns sts after ready')

  ui_init-Returns :
      (d : Screens S) (nav : Nav)
      → (p : Screens S × Nav) × (ui_init lv.lvgl version d nav ≡ some p)
        × ((f : ℕ) → f < Fields.fields → p.0.objects f ≢ none)
        × (pos 0 ≤ℤ p.1.current_screen)
        × (p.1.current_screen ≤ℤ pos 11)
  unfolding ui_init Navigation.ui_init load_screen
  ui_init-Returns d nav =
      let complete = create_screens-IsComplete lv.lvgl version d in
      rw complete.returned (_, refl, complete.all, omega arith, omega arith)

  init-Returns :
      (table : List StyleEntry) (r : ℕ) (u : Ui S) → Returns (lvgl_init lv table version r u)
  unfolding lvgl_init
  init-Returns table r u =
      let (started, returned, all, lo, hi) =
        ui_init-Returns (prepare_display lv table r u).screens (prepare_display lv table r u).nav in
      rw returned (_, refl, record { all = all; lower = lo; upper = hi })

-- `lvgl_init`, from any state, and then any number of ticks, events of widgets, changes of variables,
-- screens that are loaded by name and rotations, in any order, come to an end: no label that is NULL is
-- read or set by a tick or by a button to press and hold, and no function outside the table of ticks
-- is called.
pub lvgl_init-ui_steps :
    {S : Type 0} (lv : Panel S) (version : List ℕ) (table : List StyleEntry) (r : ℕ) (u : Ui S)
    (sts : List UiStep)
    → (lvgl_init lv table version r u >>= ui_steps lv version sts) ≢ none
lvgl_init-ui_steps lv version table r u sts =
    let (started, init, ready) = init-Returns lv version table r u in
    let (_, ran, _) = steps-Returns lv version sts started ready in rw init (λ e. cc)
