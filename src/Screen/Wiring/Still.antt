-- ===== src/Screen/Wiring/Still.antt =====
-- The screens without callbacks: those of the start and of a reboot.
use hardware_os.Base.{
  ℕ, ◌≡◌, ◌<◌, refl, sym, ◌∙◌, ◌⊎◌, inl, inr, Option, some, List, [], some_inj, ap, subst, arith,
  Option-cases,
}
use mathlib.Core.List.{Memᴰ}
use hardware_os.Ui.Navigation.{Nav}
use hardware_os.Screen.{Entry, jetkvm_ui_load_screen}
use hardware_os.Screen.Layout.Fields
use hardware_os.Screen.Layout.BootScreen.{boot_screen_layout}
use hardware_os.Screen.Layout.RebootingScreen.{rebooting_screen_layout}
use hardware_os.Screen.Layout.{EventCode, Handler, Widget}
use hardware_os.Screen.Wiring.{callbacks, layouts, layout_at, Step, fires, event, loads}
use hardware_os.Screen.Wiring.Shown.{IsLaidOut}

-- What the firmware does to the screens: it loads one by its name.
record IsLoaded (nav after : Nav) : Type 0 where
  table : List Entry
  name : List ℕ
  loaded : after ≡ record nav { active = jetkvm_ui_load_screen table name nav.active }

module _ (objects : ℕ → Option ℕ) (laid : IsLaidOut objects) where
  same_screen : (f g : ℕ) → f < Fields.fields → objects g ≡ objects f → g ≡ f
  same_screen f g lt e = elim (Option-cases (objects f)) [
    | inl unset ↦ absurd (laid.all f lt unset)
    | inr (o, set) ↦ laid.apart g f o (e ∙ set) set
  ]

  not_fired :
      (f screen : ℕ) (w v : Widget) (h : Handler) (code : EventCode)
      → layout_at f layouts ≡ some v
      → callbacks v ≡ []
      → screen ≡ f
      → layout_at screen layouts ≡ some w
      → ¬ Memᴰ {A = Handler × EventCode} (h, code) (callbacks w)
  not_fired f screen w v h code at_f quiet same at has = no_member (
      subst (λ l. Memᴰ {A = Handler × EventCode} (h, code) l) quiet
        (subst (λ x. Memᴰ {A = Handler × EventCode} (h, code) (callbacks x))
          (some_inj (sym at ∙ ap (λ n. layout_at n layouts) same ∙ at_f)) has))
    where
      no_member : ¬ Memᴰ {A = Handler × EventCode} (h, code) []
      no_member m = elim m [ ]

  -- If the pointers of the fields are set to different objects, then while the boot screen or that of
  -- a reboot is shown, the screens change only when the firmware loads one by its name.
  Step-IsLoaded :
      (nav after : Nav)
      → (nav.active ≡ objects Fields.boot_screen) ⊎ (nav.active ≡ objects Fields.rebooting_screen)
      → Step objects nav after
      → IsLoaded nav after
  unfolding callbacks
  Step-IsLoaded nav after h (loads table name other) = record {
    table = table;
    name = name;
    loaded = refl;
  }
  Step-IsLoaded nav after (inl boot) (fires (event screen w k code g vars at shown has is)) =
      absurd (
        not_fired Fields.boot_screen screen w boot_screen_layout k code refl refl
          (same_screen _ _ (omega arith) (sym shown ∙ boot)) at has)
  Step-IsLoaded nav after (inr rebooting) (fires (event screen w k code g vars at shown has is)) =
      absurd (
        not_fired Fields.rebooting_screen screen w rebooting_screen_layout k code refl refl
          (same_screen _ _ (omega arith) (sym shown ∙ rebooting)) at has)
