-- ===== src/Screen/Wiring/Held.antt =====
-- What a button to press and hold does to its widgets: the rest of `handle_hold_action` of
-- eez/src/ui/actions.c, with the objects that the configurations of its three uses name.
use hardware_os.Base.{ℕ, ◌≡◌, ◌≢◌, ◌<◌, refl, Option, none, some, List, [], ◌∷◌, ◌++◌, ◌>>=◌, arith}
use hardware_os.Base.Int.{ℤ}
use hardware_os.Base.CString.{codes}
use hardware_os.Ui.Hold.{
  LabelText, default_text, hold_for, Effect, hide_button, show_spinner, rpc, set_label, Buttons,
}
use hardware_os.Screen.Layout.Fields
use hardware_os.Screen.Layout.{
  EventCode, hidden, Handler, navigates, reset_config, reboot, dhcpc, add_flag, clear_flag,
}
use hardware_os.Screen.Build.{Lvgl}
use hardware_os.Screen.Wiring.Presses.{press}

-- `label_obj` of the configuration. The handlers that navigate have none.
unfoldable pub label_obj : Handler → (ℕ → Option ℕ) → Option ℕ
label_obj reset_config objects = objects Fields.reset_config_label
label_obj reboot objects = objects Fields.reboot_label
label_obj dhcpc objects = objects Fields.dhcpc_label
label_obj (navigates a) objects = none

hold_default : Handler → List ℕ
hold_default reset_config = codes "Press and hold for\n10 seconds"
hold_default _ = codes "Press and hold for\n5 seconds"

pub set_object : (o : Option ℕ) → o ≢ none → (x : ℕ) × (o ≡ some x)
set_object none h = absurd (h refl)
set_object (some x) h = (x, refl)

-- `print` writes an `int` as `%d` of `sprintf` does.
module _ {S : Type 0} (lv : Lvgl S) (print : ℤ → List ℕ) where
  hold_text : Handler → LabelText → List ℕ
  unfolding hold_default
  hold_text h default_text = hold_default h
  hold_text h (hold_for n) = codes "Press and hold for\n" ++ print n ++ codes " seconds"

  hide : Option ℕ → Option ℕ → S → S
  hide (some button) (some spinner) s = lv.call (add_flag (hidden ∷ [])) button s
  hide _ _ s = s

  unhide : Option ℕ → Option ℕ → S → S
  unhide (some button) (some spinner) s = lv.call (clear_flag (hidden ∷ [])) spinner s
  unhide _ _ s = s

  -- One effect on the library, `none` if the label to be set is NULL. A remote call leaves the library
  -- as it is. The only button that hides itself is that of the factory reset.
  unfoldable pub perform_one : Handler → (ℕ → Option ℕ) → Effect → S → Option S
  unfolding hold_text hide unhide
  perform_one h objects hide_button s =
      some (hide (objects Fields.reset_config_button) (objects Fields.reset_config_spinner) s)
  perform_one h objects show_spinner s =
      some (unhide (objects Fields.reset_config_button) (objects Fields.reset_config_spinner) s)
  perform_one h objects (rpc method) s = some s
  perform_one h objects (set_label text) s = do
    label ← label_obj h objects
    some (lv.labels.set_text label (hold_text h text) s)

  unfoldable pub perform : Handler → (ℕ → Option ℕ) → List Effect → S → Option S
  perform h objects [] s = some s
  perform h objects (e ∷ es) s = do after ← perform_one h objects e s; perform h objects es after

  -- An event of a button, from the variables of the three buttons and the library.
  unfoldable pub hold_event_on :
      Handler → (ℕ → Option ℕ) → ℕ → (ℕ → ℕ) → EventCode → Buttons × S → Option (Buttons × S)
  unfolding perform
  hold_event_on h objects now lv_tick_elaps code (b, s) = do
    let (after, out) = press h now lv_tick_elaps code b
    shown ← perform h objects out s
    some (after, shown)

  perform-Returns :
      (h : Handler) (objects : ℕ → Option ℕ) (label : ℕ) (out : List Effect) (s : S)
      → label_obj h objects ≡ some label
      → (after : S) × (perform h objects out s ≡ some after)
  unfolding perform perform_one
  perform-Returns h objects label [] s set = (s, refl)
  perform-Returns h objects label (hide_button ∷ es) s set =
      perform-Returns h objects label es _ set
  perform-Returns h objects label (show_spinner ∷ es) s set =
      perform-Returns h objects label es _ set
  perform-Returns h objects label (rpc method ∷ es) s set = perform-Returns h objects label es s set
  perform-Returns h objects label (set_label text ∷ es) s set =
      rw set (perform-Returns h objects label es _ set)

  button-Returns :
      (h : Handler) (objects : ℕ → Option ℕ) (now : ℕ) (lv_tick_elaps : ℕ → ℕ) (code : EventCode)
      (t : Buttons × S)
      → label_obj h objects ≢ none
      → (after : Buttons × S) × (hold_event_on h objects now lv_tick_elaps code t ≡ some after)
  unfolding hold_event_on
  button-Returns h objects now lv_tick_elaps code (b, s) set =
      let (label, there) = set_object (label_obj h objects) set in
      let (shown, returned) =
        perform-Returns h objects label (press h now lv_tick_elaps code b).1 s there in
      rw returned (_, refl)

  -- With all pointers set, an event of any handler returns.
  pub hold_event_on-Returns :
      (h : Handler) (objects : ℕ → Option ℕ) (now : ℕ) (lv_tick_elaps : ℕ → ℕ) (code : EventCode)
      (t : Buttons × S)
      → ((f : ℕ) → f < Fields.fields → objects f ≢ none)
      → (after : Buttons × S) × (hold_event_on h objects now lv_tick_elaps code t ≡ some after)
  unfolding hold_event_on perform press label_obj
  hold_event_on-Returns reset_config objects now lv_tick_elaps code t all =
      button-Returns reset_config objects now lv_tick_elaps code t
        (all Fields.reset_config_label (omega arith))
  hold_event_on-Returns reboot objects now lv_tick_elaps code t all =
      button-Returns reboot objects now lv_tick_elaps code t (all Fields.reboot_label (omega arith))
  hold_event_on-Returns dhcpc objects now lv_tick_elaps code t all =
      button-Returns dhcpc objects now lv_tick_elaps code t (all Fields.dhcpc_label (omega arith))
  hold_event_on-Returns (navigates a) objects now lv_tick_elaps code (b, s) all = (_, refl)
