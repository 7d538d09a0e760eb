-- ===== src/Screen/Wiring/Menu.antt =====
-- The ways to the main menu: the callbacks of eez/src/ui/screens.c that call `action_switch_to_menu`.
use hardware_os.Base.{
  all_below, all_below_sound, ◌||◌, [], ◌∷◌, ◌==◌, ℕ, ◌≡◌, ◌≢◌, ◌<◌, refl, sym, ◌⊎◌, inl, inr, Bool,
  true, false, Option, none, some, List, arith, Bool-cases,
}
use mathlib.Core.List.{Memᴰ}
use hardware_os.Ui.Vars.{initial}
use hardware_os.Ui.Navigation.{
  Nav, action, load_screen, get_lvgl_object_from_index, switch_to_menu, left,
}
use hardware_os.Screen.Layout.Fields
use hardware_os.Screen.Layout.{EventCode, Widget, Handler, navigates}
use hardware_os.Screen.Wiring.{layouts, layout_at, is_gesture_code, callbacks, handle, Fires, event}

-- Whether one of the callbacks is `action_switch_to_menu`.
is_menu : Handler × EventCode → Bool
is_menu (navigates switch_to_menu, code) = true
is_menu _ = false

has_menu : List (Handler × EventCode) → Bool
has_menu [] = false
has_menu (c ∷ cs) = is_menu c || has_menu cs

is_menu_sound :
    (c : Handler × EventCode)
    → is_menu c ≡ true
    → (code : EventCode) × (c ≡ (navigates switch_to_menu, code))
unfolding is_menu
is_menu_sound (navigates switch_to_menu, code) h = (code, refl)
is_menu_sound (k, code) h = absurd cc

has_menu_sound :
    (cs : List (Handler × EventCode))
    → has_menu cs ≡ true
    → (code : EventCode) × Memᴰ (navigates switch_to_menu, code) cs
unfolding has_menu
has_menu_sound [] h = absurd (ground arith)
has_menu_sound (c ∷ cs) h = elim (Bool-cases (is_menu c)) [
  | inl is ↦ let (code, same) = is_menu_sound c is in (code, Memᴰ.head (sym same))
  | inr not ↦ let (code, later) = has_menu_sound cs (rw not at h) in (code, Memᴰ.tail later)
]

leads_from : Option Widget → Bool
leads_from none = false
leads_from (some w) = has_menu (callbacks w)

-- Whether a screen has such a callback, or is one of the three others.
leads : ℕ → Bool
leads screen =
    leads_from (layout_at screen layouts)
    || (screen == Fields.menu_screen)
    || (screen == Fields.boot_screen)
    || (screen == Fields.rebooting_screen)

all_lead : all_below 12 leads ≡ true
unfolding leads leads_from has_menu is_menu callbacks
all_lead = refl

leads_from_sound :
    (o : Option Widget)
    → leads_from o ≡ true
    → (w : Widget) × (code : EventCode) × (o ≡ some w)
      × Memᴰ (navigates switch_to_menu, code) (callbacks w)
unfolding leads_from
leads_from_sound none h = absurd cc
leads_from_sound (some w) h =
    let (code, has) = has_menu_sound (callbacks w) h in (w, code, refl, has)

leads_sound :
    (screen : ℕ)
    → leads screen ≡ true
    → ((w : Widget) × (code : EventCode) × (layout_at screen layouts ≡ some w)
        × Memᴰ (navigates switch_to_menu, code) (callbacks w))
      ⊎ ((screen ≡ Fields.menu_screen)
          ⊎ ((screen ≡ Fields.boot_screen) ⊎ (screen ≡ Fields.rebooting_screen)))
unfolding leads
leads_sound screen h = elim (Bool-cases (leads_from (layout_at screen layouts))) [
  | inl leads ↦ inl (leads_from_sound _ leads)
  | inr not ↦ inr (ground arith)
]

module _ (objects : ℕ → Option ℕ) where
  -- An event of the screen that is shown leads to the main menu.
  abbrev pub HasWay : Nav → Type 0
  HasWay nav = (after : Nav) × Fires objects nav after × (after.active ≡ objects Fields.menu_screen)

  leads_to_menu :
      (screen : ℕ) (w : Widget) (code : EventCode) (nav : Nav)
      → layout_at screen layouts ≡ some w
      → nav.active ≡ objects screen
      → Memᴰ (navigates switch_to_menu, code) (callbacks w)
      → HasWay nav
  unfolding handle action load_screen get_lvgl_object_from_index
  leads_to_menu screen w code nav at shown has = (
    _,
    event screen w (navigates switch_to_menu) code
        (record { is_gesture = is_gesture_code code; direction = left }) initial at shown has refl,
    refl,
  )

  -- Where one of the twelve screens is shown, and it is neither that of the start nor that of a reboot,
  -- it is the main menu, or an event that one of its widgets has a callback for leads to the main menu.
  pub Fires-menu :
      (screen : ℕ) (nav : Nav)
      → screen < 12
      → screen ≢ Fields.boot_screen
      → screen ≢ Fields.rebooting_screen
      → nav.active ≡ objects screen
      → (screen ≡ Fields.menu_screen) ⊎ HasWay nav
  Fires-menu screen nav lt boot rebooting shown =
      elim (leads_sound screen (all_below_sound 12 leads all_lead screen lt)) [
        | inl (w, code, at, has) ↦ inr (leads_to_menu screen w code nav at shown has)
        | inr rest ↦ elim rest [
          | inl menu ↦ inl menu
          | inr rest' ↦ elim rest' [ inl b ↦ absurd (boot b) | inr r ↦ absurd (rebooting r) ]
        ]
      ]
