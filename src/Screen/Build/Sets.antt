-- ===== src/Screen/Build/Sets.antt =====
-- The pointers of `objects` that the layouts set: those of eez/src/ui/screens.c, by the run of `Build`.
use hardware_os.Base.{
  ℕ, ◌≡◌, ◌≢◌, refl, ap, ◌∙◌, sym, inl, inr, Bool, true, false, ◌==◌, ◌||◌, Option, none, some,
  List, [], ◌∷◌, arith, Bool-cases,
}
use hardware_os.Screen.Layout.{Call, add_style, label_set_text, Widget, widget, Widgets, leaf, ◌▹◌}
use hardware_os.Screen.Build.{Lvgl, Screens, call_on, calls_on, assign, build, build_all}

-- Whether a field is set to a widget of the tree.
unfoldable mutual
  pub assigns : ℕ → Widget → Bool
  assigns f (widget kind none calls inside) = assigns_inside f inside
  assigns f (widget kind (some g) calls inside) = (f == g) || assigns_inside f inside

  pub assigns_inside : ℕ → Widgets → Bool
  assigns_inside f leaf = false
  assigns_inside f (w ▹ ws) = assigns f w || assigns_inside f ws

module _ {S : Type 0} (lv : Lvgl S) where
  pub call_on-objects : (o : ℕ) (c : Call) (d : Screens S) → (call_on lv o c d).objects ≡ d.objects
  unfolding call_on
  call_on-objects o (add_style id) d = refl
  call_on-objects o (label_set_text text) d = refl
  call_on-objects o c d = refl

  pub calls_on-objects :
      (o : ℕ) (cs : List Call) (d : Screens S) → (calls_on lv o cs d).objects ≡ d.objects
  unfolding calls_on
  calls_on-objects o [] d = refl
  calls_on-objects o (c ∷ cs) d = calls_on-objects o cs (call_on lv o c d) ∙ call_on-objects o c d

  module _ (f : ℕ) where
    -- The pointer is set.
    abbrev pub HasField : Screens S → Type 0
    HasField d = d.objects f ≢ none

    pub HasField-kept :
        {before after : ℕ → Option ℕ} → after ≡ before → before f ≢ none → after f ≢ none
    HasField-kept kept h e = h (sym (ap (λ g. g f) kept) ∙ e)

    calls_on-HasField :
        (o : ℕ) (cs : List Call) (d : Screens S) → HasField d → HasField (calls_on lv o cs d)
    calls_on-HasField o cs d h = HasField-kept (calls_on-objects o cs d) h

    assign-keeps : (g : Option ℕ) (o : ℕ) (d : Screens S) → HasField d → HasField (assign lv g o d)
    unfolding assign
    assign-keeps none o d h = h
    assign-keeps (some g) o d h = λ e. ground arith

    assign-sets : (g o : ℕ) (d : Screens S) → (f == g) ≡ true → HasField (assign lv (some g) o d)
    unfolding assign
    assign-sets g o d same = λ e. ground arith

    mutual
      unfolding build

      pub build-keeps :
          (parent : Option ℕ) (w : Widget) (d : Screens S)
          → HasField d
          → HasField (build lv parent w d)
      build-keeps parent (widget kind field calls inside) d h =
          build_all-keeps _ inside _ (calls_on-HasField _ calls _ (assign-keeps field _ _ h))

      build_all-keeps :
          (parent : ℕ) (ws : Widgets) (d : Screens S)
          → HasField d
          → HasField (build_all lv parent ws d)
      build_all-keeps parent leaf d h = h
      build_all-keeps parent (w ▹ ws) d h =
          build_all-keeps parent ws _ (build-keeps (some parent) w d h)

    mutual
      unfolding build assigns

      pub build-sets :
          (parent : Option ℕ) (w : Widget) (d : Screens S)
          → assigns f w ≡ true
          → HasField (build lv parent w d)
      build-sets parent (widget kind none calls inside) d h = build_all-sets _ inside _ h
      build-sets parent (widget kind (some g) calls inside) d h = elim (Bool-cases (f == g)) [
        | inl same ↦
            build_all-keeps _ inside _ (calls_on-HasField _ calls _ (assign-sets g _ _ same))
        | inr other ↦ build_all-sets _ inside _ (rw other at h)
      ]

      build_all-sets :
          (parent : ℕ) (ws : Widgets) (d : Screens S)
          → assigns_inside f ws ≡ true
          → HasField (build_all lv parent ws d)
      build_all-sets parent leaf d h = absurd (ground arith)
      build_all-sets parent (w ▹ ws) d h = elim (Bool-cases (assigns f w)) [
        | inl here ↦ build_all-keeps parent ws _ (build-sets (some parent) w d here)
        | inr later ↦ build_all-sets parent ws _ (rw later at h)
      ]

unfoldable pub assigns_any : ℕ → List Widget → Bool
assigns_any f [] = false
assigns_any f (w ∷ ws) = assigns f w || assigns_any f ws

unfoldable pub build_screens : {S : Type 0} → Lvgl S → List Widget → Screens S → Screens S
build_screens lv [] d = d
build_screens lv (w ∷ ws) d = build_screens lv ws (build lv none w d)

module _ {S : Type 0} (lv : Lvgl S) (f : ℕ) where
  pub build_screens-keeps :
      (ws : List Widget) (d : Screens S) → HasField lv f d → HasField lv f (build_screens lv ws d)
  unfolding build_screens
  build_screens-keeps [] d h = h
  build_screens-keeps (w ∷ ws) d h = build_screens-keeps ws _ (build-keeps lv f none w d h)

  pub build_screens-sets :
      (ws : List Widget) (d : Screens S)
      → assigns_any f ws ≡ true
      → HasField lv f (build_screens lv ws d)
  unfolding build_screens assigns_any
  build_screens-sets [] d h = absurd (ground arith)
  build_screens-sets (w ∷ ws) d h = elim (Bool-cases (assigns f w)) [
    | inl here ↦ build_screens-keeps ws _ (build-sets lv f none w d here)
    | inr later ↦ build_screens-sets ws _ (rw later at h)
  ]
