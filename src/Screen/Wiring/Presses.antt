-- ===== src/Screen/Wiring/Presses.antt =====
-- The remote calls that the screens can make: the buttons to press and hold of eez/src/ui/actions.c,
-- by the events that eez/src/ui/screens.c sends them.
use Prim.Native.String.{String}
use hardware_os.Base.{
  zero, suc, length, ℕ, ◌≡◌, ◌<◌, refl, sym, ◌⊎◌, inl, inr, Bool, true, ◌&&◌, ◌==◌, ==_iff, Option,
  none, some, List, [], ◌∷◌, subst, arith, all_below, all_below_sound,
}
use mathlib.Core.List.{Memᴰ}
use hardware_os.Ui.Hold.{
  HoldConfig, HoldState, Event, Effect, rpc, Buttons, action_reset_config, action_reboot,
  action_dhcpc,
}
use hardware_os.Ui.Hold
use hardware_os.Screen.Layout.Fields
use hardware_os.Screen.Layout.{
  EventCode, pressed, pressing, released, Handler, navigates, reset_config, reboot, dhcpc, Widget,
}
use hardware_os.Screen.Wiring.{callbacks, layouts, layout_at}

-- The events that `handle_hold_action` tells apart.
abbrev pub hold_event : EventCode → Event
hold_event pressed = Hold.pressed
hold_event pressing = Hold.pressing
hold_event released = Hold.released
hold_event _ = Hold.other

-- The other handlers touch no button.
unfoldable pub press : Handler → ℕ → (ℕ → ℕ) → EventCode → Buttons → Buttons × List Effect
press reset_config now lv_tick_elaps code b =
    action_reset_config now lv_tick_elaps (hold_event code) b
press reboot now lv_tick_elaps code b = action_reboot now lv_tick_elaps (hold_event code) b
press dhcpc now lv_tick_elaps code b = action_dhcpc now lv_tick_elaps (hold_event code) b
press (navigates a) now lv_tick_elaps code b = (b, [])

-- The screen and the method of a button.
abbrev screen_of : Handler → ℕ
screen_of reset_config = Fields.reset_config_screen
screen_of reboot = Fields.reboot_screen
screen_of dhcpc = Fields.switch_dhcp_client_screen
screen_of (navigates a) = Fields.fields

abbrev method_of : Handler → String
method_of reset_config = "resetConfig"
method_of reboot = "reboot"
method_of dhcpc = "toggleDHCPClient"
method_of (navigates a) = ""

-- The methods of the remote calls, in order.
abbrev pub methods : List Effect → List String
methods [] = []
methods (rpc m ∷ out) = m ∷ methods out
methods (_ ∷ out) = methods out

-- A remote call is made only while a button is held, and it is that of the configuration.
hold_methods :
    (now : ℕ) (lv_tick_elaps : ℕ → ℕ) (e : Event) (config : HoldConfig) (s : HoldState)
    → let out = methods (Hold.handle_hold_action now lv_tick_elaps e config s).1 in
      (out ≡ []) ⊎ ((e ≡ Hold.pressing) × (out ≡ config.rpc_method ∷ []))
unfolding Hold.handle_hold_action
hold_methods now lv_tick_elaps e config s = ground arith

hold_event_pressing : (code : EventCode) → hold_event code ≡ Hold.pressing → code ≡ pressing
hold_event_pressing pressing e = refl
hold_event_pressing _ e = absurd cc

code_methods :
    (now : ℕ) (lv_tick_elaps : ℕ → ℕ) (code : EventCode) (config : HoldConfig) (s : HoldState)
    → let out = methods (Hold.handle_hold_action now lv_tick_elaps (hold_event code) config s).1 in
      (out ≡ []) ⊎ ((code ≡ pressing) × (out ≡ config.rpc_method ∷ []))
code_methods now lv_tick_elaps code config s =
    elim (hold_methods now lv_tick_elaps (hold_event code) config s) [
      | inl quiet ↦ inl quiet
      | inr (held, calls) ↦ inr (hold_event_pressing code held, calls)
    ]

methods-press :
    (h : Handler) (now : ℕ) (lv_tick_elaps : ℕ → ℕ) (code : EventCode) (b : Buttons)
    → let out = methods (press h now lv_tick_elaps code b).1 in
      (out ≡ []) ⊎ ((code ≡ pressing) × (out ≡ method_of h ∷ []))
unfolding press action_reset_config action_reboot action_dhcpc
methods-press reset_config now lv_tick_elaps code b =
    code_methods now lv_tick_elaps code Hold.reset_config b.reset_config_state
methods-press reboot now lv_tick_elaps code b =
    code_methods now lv_tick_elaps code Hold.reboot b.reboot_state
methods-press dhcpc now lv_tick_elaps code b =
    code_methods now lv_tick_elaps code Hold.dhcpc b.dhcpc_state
methods-press (navigates a) now lv_tick_elaps code b = inl refl

-- Whether the callback is not for holding, or is on the button's own screen.
is_placed : ℕ → Handler × EventCode → Bool
is_placed screen (h, pressing) = screen == screen_of h
is_placed screen _ = true

are_placed : ℕ → List (Handler × EventCode) → Bool
are_placed screen [] = true
are_placed screen (c ∷ cs) = is_placed screen c && are_placed screen cs

placed_at : ℕ → Option Widget → Bool
placed_at screen none = true
placed_at screen (some w) = are_placed screen (callbacks w)

all_placed : all_below 12 (λ screen. placed_at screen (layout_at screen layouts)) ≡ true
unfolding placed_at are_placed is_placed callbacks
all_placed = refl

are_placed_sound :
    (screen : ℕ) (h : Handler) (cs : List (Handler × EventCode))
    → are_placed screen cs ≡ true
    → Memᴰ {A = Handler × EventCode} (h, pressing) cs
    → screen ≡ screen_of h
unfolding are_placed is_placed
are_placed_sound screen h [] p m = elim m [ ]
are_placed_sound screen h (c ∷ cs) p (Memᴰ.head e) =
    (==_iff screen (screen_of h)).0 (subst (λ x. is_placed screen x ≡ true) (sym e) (ground arith))
are_placed_sound screen h (c ∷ cs) p (Memᴰ.tail m) = are_placed_sound screen h cs (ground arith) m

placed_at_sound :
    (screen : ℕ) (w : Widget) (h : Handler)
    → layout_at screen layouts ≡ some w
    → screen < 12
    → Memᴰ {A = Handler × EventCode} (h, pressing) (callbacks w)
    → screen ≡ screen_of h
unfolding placed_at
placed_at_sound screen w h at lt m =
    are_placed_sound screen h (callbacks w)
      (subst (λ o. placed_at screen o ≡ true) at
        (all_below_sound 12 (λ k. placed_at k (layout_at k layouts)) all_placed screen lt))
      m

layout_at-lt : (n : ℕ) (ws : List Widget) (w : Widget) → layout_at n ws ≡ some w → n < length ws
layout_at-lt n [] w e = absurd cc
layout_at-lt zero (v ∷ ws) w e = omega arith
layout_at-lt (suc n) (v ∷ ws) w e = omega (arith, layout_at-lt n ws w e)

-- The remote call of a button, on its screen.
abbrev pub IsOwnCall : ℕ → List String → Type 0
IsOwnCall screen out =
    ((screen ≡ Fields.reset_config_screen) × (out ≡ "resetConfig" ∷ []))
    ⊎ (((screen ≡ Fields.reboot_screen) × (out ≡ "reboot" ∷ []))
        ⊎ ((screen ≡ Fields.switch_dhcp_client_screen) × (out ≡ "toggleDHCPClient" ∷ [])))

own_call :
    (h : Handler) (screen : ℕ) (out : List String)
    → screen < 12
    → screen ≡ screen_of h
    → out ≡ method_of h ∷ []
    → IsOwnCall screen out
own_call reset_config screen out lt at calls = inl (at, calls)
own_call reboot screen out lt at calls = inr (inl (at, calls))
own_call dhcpc screen out lt at calls = inr (inr (at, calls))
own_call (navigates a) screen out lt at calls = absurd (omega arith)

-- An event that a widget of a screen has a callback for makes at most one remote call, and only while a
-- button is held: the call for a factory reset only on the screen for it, that for a reboot only on the
-- screen for that, and that for the DHCP client only on its screen.
pub press_sound :
    (screen : ℕ) (w : Widget) (h : Handler) (code : EventCode) (now : ℕ) (lv_tick_elaps : ℕ → ℕ)
    (b : Buttons)
    → layout_at screen layouts ≡ some w
    → Memᴰ {A = Handler × EventCode} (h, code) (callbacks w)
    → let out = methods (press h now lv_tick_elaps code b).1 in
      (out ≡ []) ⊎ ((code ≡ pressing) × IsOwnCall screen out)
press_sound screen w h code now lv_tick_elaps b at has =
    elim (methods-press h now lv_tick_elaps code b) [
      | inl quiet ↦ inl quiet
      | inr (held, calls) ↦
          let lt = layout_at-lt screen layouts w at in
          inr (
            held,
            own_call h screen _ lt
                (placed_at_sound screen w h at lt
                  (subst (λ c. Memᴰ {A = Handler × EventCode} (h, c) (callbacks w)) held has))
                calls,
          )
    ]
