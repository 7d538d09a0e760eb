-- ===== src/Ui/Hold.antt =====
-- The press-and-hold buttons of eez/src/ui/actions.c: `handle_hold_action` and its three uses.
pub mod Once
use Prim.Native.String.{String}
use hardware_os.Base.{
  ℕ, zero, suc, ◌+◌, ◌-◌, ◌*◌, ◌/◌, ◌%◌, ◌^◌, ◌≤◌, ◌<◌, ◌≡◌, refl, ◌⊎◌, inl, inr, Bool, true, false,
  List, [], ◌∷◌, ◌++◌, arith, ltb, leb, ◌==◌, if◌then◌else◌,
}
use hardware_os.Base.Int.{ℤ, pos, negsuc, leb_ℤ}

-- The events that the handler tells apart.
pub data Event : Type 0 where
  pressed : Event
  pressing : Event
  released : Event
  other : Event

-- `buf` after `sprintf(…, "Press and hold for\n%d seconds", n)` is `hold_for n`.
pub data LabelText : Type 0 where
  default_text : LabelText
  hold_for : ℤ → LabelText

pub data Effect : Type 0 where
  hide_button : Effect
  show_spinner : Effect
  rpc : String → Effect
  set_label : LabelText → Effect

-- The three variables that a configuration points to.
pub record HoldState : Type 0 where
  pub start_time : ℕ  -- uint32_t
  pub completed : Bool
  pub lock : Bool

-- `has_widgets` says that both the button and the spinner are there.
pub record HoldConfig : Type 0 where
  pub hold_time_seconds : ℕ
  pub rpc_method : String
  pub has_widgets : Bool

-- A 32-bit pattern read as an `int`.
abbrev pub signed32 : ℕ → ℤ
signed32 w = if ltb w (2 ^ 31) then pos w else negsuc (2 ^ 32 - w - 1)

-- `hold_time_seconds * 1000 - lv_tick_elaps(…)` is computed in `uint32_t` and stored in an `int`.
unfoldable pub remaining_time : ℕ → ℕ → ℤ
remaining_time hold_ms elapsed = signed32 ((hold_ms + 2 ^ 32 - elapsed) % 2 ^ 32)

-- The number of seconds on the label: `remaining_time / 1000`, at least 1.
abbrev pub remaining_seconds : ℤ → ℤ
remaining_seconds (negsuc n) = pos 1
remaining_seconds (pos n) = if leb (n / 1000) 1 then pos 1 else pos (n / 1000)

abbrev pub reveal : Bool → List Effect
reveal true = hide_button ∷ show_spinner ∷ []
reveal false = []

on_pressing : HoldConfig → ℕ → HoldState → HoldState × List Effect
unfolding remaining_time
on_pressing config elapsed s =
    let remaining = remaining_time (config.hold_time_seconds * 1000) elapsed in
    if leb_ℤ remaining (pos 0)
    then (if s.lock then (s, []) else (
      record s { lock = true; completed = true },
      reveal config.has_widgets ++ rpc config.rpc_method ∷ [],
    ))
    else (record s { completed = false }, set_label (hold_for (remaining_seconds remaining)) ∷ [])

on_released : HoldState → HoldState × List Effect
on_released s = (record s { lock = false }, if s.completed then [] else set_label default_text ∷ [])

-- `now` is `lv_tick_get()`, and `lv_tick_elaps t` the time since t: the graphics library's clock.
unfoldable pub handle_hold_action :
    ℕ → (ℕ → ℕ) → Event → HoldConfig → HoldState → HoldState × List Effect
unfolding on_pressing on_released
handle_hold_action now lv_tick_elaps pressed config s = (record s { start_time = now }, [])
handle_hold_action now lv_tick_elaps pressing config s =
    on_pressing config (lv_tick_elaps s.start_time) s
handle_hold_action now lv_tick_elaps released config s = on_released s
handle_hold_action now lv_tick_elaps other config s = (s, [])

abbrev pub reset_config : HoldConfig
reset_config = record { hold_time_seconds = 10; rpc_method = "resetConfig"; has_widgets = true }

abbrev pub dhcpc : HoldConfig
dhcpc = record { hold_time_seconds = 5; rpc_method = "toggleDHCPClient"; has_widgets = false }

abbrev pub reboot : HoldConfig
reboot = record { hold_time_seconds = 5; rpc_method = "reboot"; has_widgets = false }

-- The variables of the three buttons.
pub record Buttons : Type 0 where
  pub reset_config_state : HoldState
  pub reboot_state : HoldState
  pub dhcpc_state : HoldState

unfoldable pub action_reset_config : ℕ → (ℕ → ℕ) → Event → Buttons → Buttons × List Effect
unfolding handle_hold_action
action_reset_config now lv_tick_elaps e b =
    let (s, out) = handle_hold_action now lv_tick_elaps e reset_config b.reset_config_state in
    (record b { reset_config_state = s }, out)

unfoldable pub action_dhcpc : ℕ → (ℕ → ℕ) → Event → Buttons → Buttons × List Effect
unfolding handle_hold_action
action_dhcpc now lv_tick_elaps e b =
    let (s, out) = handle_hold_action now lv_tick_elaps e dhcpc b.dhcpc_state in
    (record b { dhcpc_state = s }, out)

unfoldable pub action_reboot : ℕ → (ℕ → ℕ) → Event → Buttons → Buttons × List Effect
unfolding handle_hold_action
action_reboot now lv_tick_elaps e b =
    let (s, out) = handle_hold_action now lv_tick_elaps e reboot b.reboot_state in
    (record b { reboot_state = s }, out)
