-- ===== src/Screen/Wiring/Shown.antt =====
-- What the screens show from `ui_init` of eez/src/ui/ui.c on.
use hardware_os.Base.{
  some_inj, subst, ℕ, ◌≡◌, ◌≢◌, ◌<◌, refl, sym, ◌∙◌, inl, inr, Bool, true, false, Option, none,
  some, List, arith, Bool-cases, Option-cases, if◌then◌else◌,
}
use hardware_os.Ui.Vars.{Vars, get_var_main_screen}
use hardware_os.Ui.Navigation.{
  Nav, Gesture, Direction, Action, action, load_screen, get_lvgl_object_from_index, same_direction,
  handle_gesture_screen_switch, handle_gesture_main_screen_switch, bytes_eq, home_screen_name,
  no_network_screen_name, switch_to_menu, switch_to_advanced_menu, switch_to_status,
  switch_to_about, switch_to_reset_config, switch_to_dhcpc, switch_to_reboot, menu_screen_gesture,
  menu_advanced_screen_gesture, reset_config_screen_gesture, home_screen_gesture,
  about_screen_gesture, left, right, menu_screen,
}
use hardware_os.Screen.{Entry, is_obj, ui_get_obj, jetkvm_ui_load_screen}
use hardware_os.Screen.Layout.Fields
use hardware_os.Screen.Layout.{Handler, navigates}
use hardware_os.Screen.Wiring.{handle, Step, fires, event, loads, Reach, here, next}
use hardware_os.Screen.Build.{Lvgl, Screens, no_objects, ui_init}
use hardware_os.Screen.Build.Complete.{create_screens-IsComplete}
use hardware_os.Screen.Build.Apart.{LvglLaws, create_screens-IsApart}
use hardware_os.Ui.Navigation

-- The pointers of the fields are set, to different objects.
pub record IsLaidOut (objects : ℕ → Option ℕ) : Type 0 where
  pub all : (f : ℕ) → f < Fields.fields → objects f ≢ none
  pub apart : (f g o : ℕ) → objects f ≡ some o → objects g ≡ some o → f ≡ g

module _ (objects : ℕ → Option ℕ) (laid : IsLaidOut objects) where
  -- A screen is shown, and not that of the network menu.
  abbrev IsVisible : Option ℕ → Type 0
  IsVisible active = (active ≢ none) × (active ≢ objects Fields.menu_network_screen)

  screen-IsVisible : (k : ℕ) → k < 12 → k ≢ Fields.menu_network_screen → IsVisible (objects k)
  screen-IsVisible k lt other = elim (Option-cases (objects Fields.menu_network_screen)) [
    | inl unset ↦ absurd (laid.all Fields.menu_network_screen (omega arith) unset)
    | inr (o, set) ↦ (
      laid.all k (omega arith),
      λ e. other (laid.apart k Fields.menu_network_screen o (e ∙ set) set),
    )
  ]

  if-IsVisible :
      (b : Bool) (a c : Nav)
      → IsVisible a.active
      → IsVisible c.active
      → IsVisible (if b then a else c).active
  if-IsVisible true a c ha hc = ha
  if-IsVisible false a c ha hc = hc

  switch-IsVisible :
      (g : Gesture) (dir : Direction) (id k : ℕ) (nav : Nav)
      → (load_screen objects id nav).active ≡ objects k
      → k < 12
      → k ≢ Fields.menu_network_screen
      → IsVisible nav.active
      → IsVisible (handle_gesture_screen_switch objects g dir id nav).0.active
  unfolding handle_gesture_screen_switch
  switch-IsVisible g dir id k nav shows lt other h = elim (Bool-cases g.is_gesture) [
    | inl is ↦ elim (Bool-cases (same_direction g.direction dir)) [
      | inl along ↦ rw (is, along, shows) (screen-IsVisible k lt other)
      | inr across ↦ rw (is, across) h
    ]
    | inr not ↦ rw not h
  ]

  action-IsVisible :
      (a : Action) (g : Gesture) (vars : Vars) (nav : Nav)
      → IsVisible nav.active
      → IsVisible (action objects a g vars nav).active
  unfolding action load_screen get_lvgl_object_from_index handle_gesture_main_screen_switch
  action-IsVisible switch_to_menu g vars nav h = screen-IsVisible 3 (omega arith) (λ e. omega arith)
  action-IsVisible switch_to_advanced_menu g vars nav h =
      screen-IsVisible 4 (omega arith) (λ e. omega arith)
  action-IsVisible switch_to_status g vars nav h =
      screen-IsVisible 7 (omega arith) (λ e. omega arith)
  action-IsVisible switch_to_about g vars nav h =
      screen-IsVisible 6 (omega arith) (λ e. omega arith)
  action-IsVisible switch_to_reset_config g vars nav h =
      screen-IsVisible 8 (omega arith) (λ e. omega arith)
  action-IsVisible switch_to_dhcpc g vars nav h =
      screen-IsVisible 11 (omega arith) (λ e. omega arith)
  action-IsVisible switch_to_reboot g vars nav h =
      screen-IsVisible 9 (omega arith) (λ e. omega arith)
  action-IsVisible menu_screen_gesture g vars nav h =
      elim (Bool-cases (bytes_eq (get_var_main_screen vars) home_screen_name)) [
        | inl home ↦ rw home (screen-IsVisible 2 (omega arith) (λ e. omega arith))
        | inr other ↦
            elim (Bool-cases (bytes_eq (get_var_main_screen vars) no_network_screen_name)) [
              | inl offline ↦
                  rw (other, offline) (screen-IsVisible 1 (omega arith) (λ e. omega arith))
              | inr unknown ↦ rw (other, unknown) h
            ]
      ]
  action-IsVisible menu_advanced_screen_gesture g vars nav h =
      switch-IsVisible g right menu_screen 3 nav refl (omega arith) (λ e. omega arith) h
  action-IsVisible reset_config_screen_gesture g vars nav h =
      switch-IsVisible g right menu_screen 3 nav refl (omega arith) (λ e. omega arith) h
  action-IsVisible home_screen_gesture g vars nav h =
      switch-IsVisible g left menu_screen 3 nav refl (omega arith) (λ e. omega arith) h
  action-IsVisible about_screen_gesture g vars nav h =
      switch-IsVisible g right menu_screen 3 nav refl (omega arith) (λ e. omega arith) h

  load-IsVisible :
      (table : List Entry) (name : List ℕ) (active : Option ℕ)
      → ui_get_obj table name ≢ objects Fields.menu_network_screen
      → IsVisible active
      → IsVisible (jetkvm_ui_load_screen table name active)
  unfolding jetkvm_ui_load_screen
  load-IsVisible table name active other h = elim (Option-cases (ui_get_obj table name)) [
    | inl missing ↦ rw missing h
    | inr (o, found) ↦ rw found (loaded o (rw found at other))
  ]
    where
      loaded :
          (o : ℕ)
          → some o ≢ objects Fields.menu_network_screen
          → IsVisible (if is_obj o active then active else some o)
      loaded o apart = elim (Bool-cases (is_obj o active)) [
        | inl same ↦ rw same h
        | inr differs ↦ rw differs ((λ e. ground arith), apart)
      ]

  handle-IsVisible :
      (k : Handler) (g : Gesture) (vars : Vars) (nav : Nav)
      → IsVisible nav.active
      → IsVisible (handle objects k g vars nav).active
  unfolding handle
  handle-IsVisible (navigates a) g vars nav h = action-IsVisible a g vars nav h
  handle-IsVisible _ g vars nav h = h

  Step-IsVisible :
      {nav after : Nav} → Step objects nav after → IsVisible nav.active → IsVisible after.active
  Step-IsVisible {nav} (fires (event screen w k code g vars at shown has is)) h =
      handle-IsVisible k g vars nav h
  Step-IsVisible {nav} (loads table name other) h = load-IsVisible table name nav.active other h

  Reach-IsVisible :
      {start after : Nav}
      → IsVisible start.active
      → Reach objects start after
      → IsVisible after.active
  Reach-IsVisible h here = h
  Reach-IsVisible h (next r step) = Step-IsVisible step (Reach-IsVisible h r)

-- The graphics library keeps its laws, no pointer is set before, and the screens are then made by
-- `ui_init`.
pub record IsStarted {S : Type 0} (lv : Lvgl S) (IsAlive : ℕ → S → Type 0) (version : List ℕ)
    (d : Screens S) (nav : Nav) (created : Screens S) (start : Nav) : Type 0 where
  pub laws : LvglLaws lv IsAlive
  pub empty : d.objects ≡ no_objects
  pub returned : ui_init lv version d nav ≡ some (created, start)

pub ui_init-IsLaidOut :
    {S : Type 0} (lv : Lvgl S) (IsAlive : ℕ → S → Type 0) (version : List ℕ) (d created : Screens S)
    (nav start : Nav)
    → IsStarted lv IsAlive version d nav created start
    → IsLaidOut created.objects × (start.active ≡ created.objects Fields.boot_screen)
unfolding ui_init load_screen get_lvgl_object_from_index Navigation.ui_init
ui_init-IsLaidOut {S} lv IsAlive version d created nav start h =
    let complete = create_screens-IsComplete lv version d in
    let c = complete.after in
    let apart = create_screens-IsApart lv IsAlive version d c h.laws h.empty complete.returned in
    let same : (c, Navigation.ui_init c.objects nav) ≡ (created, start) =
      some_inj (sym (rw complete.returned refl) ∙ h.returned) in
    subst
      (λ (p : Screens S × Nav).
        IsLaidOut p.0.objects × (p.1.active ≡ p.0.objects Fields.boot_screen))
      same (record { all = complete.all; apart = apart }, refl)

-- If no pointer is set before and the graphics library keeps its laws, then from `ui_init` on, whatever events the widgets receive and whatever screens but the network menu the
-- firmware loads, a screen is shown, and it is not the network menu.
pub ui_init-Reach :
    {S : Type 0} (lv : Lvgl S) (IsAlive : ℕ → S → Type 0) (version : List ℕ) (d created : Screens S)
    (nav start after : Nav)
    → IsStarted lv IsAlive version d nav created start
    → Reach created.objects start after
    → (after.active ≢ none) × (after.active ≢ created.objects Fields.menu_network_screen)
ui_init-Reach lv IsAlive version d created nav start after h r =
    let (laid, boot) = ui_init-IsLaidOut lv IsAlive version d created nav start h in
    Reach-IsVisible created.objects laid
      (rw boot
        (screen-IsVisible created.objects laid Fields.boot_screen (omega arith) (λ e. omega arith)))
      r
