-- ===== src/Screen/Build/Apart.antt =====
-- The widgets of different fields of `objects` are different, if the graphics library gives each new
-- object a place of its own.
use hardware_os.Base.{
  some_inj, ℕ, ◌≡◌, ◌≢◌, refl, ap, ◌∙◌, sym, subst, ◌⊎◌, inl, inr, ◌==◌, ==_iff, Option, none, some,
  List, [], ◌∷◌, arith, Bool-cases,
}
use hardware_os.Base.CString.{codes}
use hardware_os.Screen.Styles.{StyleId}
use hardware_os.Screen.Layout.{
  Kind, Call, add_style, label_set_text, Widget, widget, Widgets, leaf, ◌▹◌,
}
use hardware_os.Screen.Layout.BootScreen.{boot_screen_layout}
use hardware_os.Screen.Layout.AboutScreen.{about_screen_layout}
use hardware_os.Screen.Build.{
  Lvgl, Screens, no_objects, put_object, call_on, calls_on, assign, build, build_all,
  create_screens,
}
use hardware_os.Screen.Build.Sets.{build_screens, calls_on-objects}
use hardware_os.Screen.Build.Steps.{first_layouts, last_layouts, create_screens-IsCreated}

-- What the library is relied on for: `lv_obj_create` and the like return an object that was not there,
-- and nothing that the screens call deletes one.
pub record LvglLaws {S : Type 0} (lv : Lvgl S) (IsAlive : ℕ → S → Type 0) : Type 0 where
  pub fresh : (kind : Kind) (parent : Option ℕ) (s : S) → ¬ IsAlive (lv.create kind parent s).1 s
  pub alive :
      (kind : Kind) (parent : Option ℕ) (s : S)
      → IsAlive (lv.create kind parent s).1 (lv.create kind parent s).0
  pub create_kept :
      (kind : Kind) (parent : Option ℕ) (o : ℕ) (s : S)
      → IsAlive o s
      → IsAlive o (lv.create kind parent s).0
  pub call_kept : (c : Call) (p o : ℕ) (s : S) → IsAlive o s → IsAlive o (lv.call c p s)
  pub text_kept :
      (p : ℕ) (text : List ℕ) (o : ℕ) (s : S)
      → IsAlive o s
      → IsAlive o (lv.labels.set_text p text s)
  pub style_kept :
      (p : ℕ) (id : StyleId) (o : ℕ) (s : S)
      → IsAlive o s
      → IsAlive o (lv.styles.obj_add_style p id s)
  pub theme_kept : (o : ℕ) (s : S) → IsAlive o s → IsAlive o (lv.set_theme s)

-- The objects of the fields are there, and those of two fields are two.
pub record IsApart {S : Type 0} (IsAlive : ℕ → S → Type 0) (objects : ℕ → Option ℕ) (s : S)
    : Type 0 where
  pub alive : (f o : ℕ) → objects f ≡ some o → IsAlive o s
  pub apart : (f g o : ℕ) → objects f ≡ some o → objects g ≡ some o → f ≡ g

none-ne : {A : Type 0} {a : A} → ¬ (◌≡◌ {A = Option A} none (some a))
none-ne e = cc

module _ {S : Type 0} (lv : Lvgl S) (IsAlive : ℕ → S → Type 0) (laws : LvglLaws lv IsAlive) where
  call_on-IsAlive :
      (p : ℕ) (c : Call) (d : Screens S) (o : ℕ)
      → IsAlive o d.lib
      → IsAlive o (call_on lv p c d).lib
  unfolding call_on
  call_on-IsAlive p (add_style id) d o h = laws.style_kept p id o d.lib h
  call_on-IsAlive p (label_set_text text) d o h = laws.text_kept p (codes text) o d.lib h
  call_on-IsAlive p c d o h = laws.call_kept c p o d.lib h

  calls_on-IsAlive :
      (p : ℕ) (cs : List Call) (d : Screens S) (o : ℕ)
      → IsAlive o d.lib
      → IsAlive o (calls_on lv p cs d).lib
  unfolding calls_on
  calls_on-IsAlive p [] d o h = h
  calls_on-IsAlive p (c ∷ cs) d o h =
      calls_on-IsAlive p cs (call_on lv p c d) o (call_on-IsAlive p c d o h)

  IsApart-kept :
      {before after : ℕ → Option ℕ} {s t : S}
      → after ≡ before
      → ((o : ℕ) → IsAlive o s → IsAlive o t)
      → IsApart IsAlive before s
      → IsApart IsAlive after t
  IsApart-kept same kept h = record {
    alive = λ f o e. kept o (h.alive f o (sym (ap (λ p. p f) same) ∙ e));
    apart =
        λ f g o e e'. h.apart f g o (sym (ap (λ p. p f) same) ∙ e) (sym (ap (λ p. p g) same) ∙ e');
  }

  put_object-cases :
      (k n : ℕ) (objects : ℕ → Option ℕ) (f o : ℕ)
      → put_object k n objects f ≡ some o
      → ((f ≡ k) × (n ≡ o)) ⊎ (objects f ≡ some o)
  put_object-cases k n objects f o e = elim (Bool-cases (f == k)) [
    | inl same ↦ inl ((==_iff f k).0 same, ground arith)
    | inr other ↦ inr (rw other at e)
  ]

  -- The first two steps for a widget.
  assign-IsApart :
      (field : Option ℕ) (kind : Kind) (parent : Option ℕ) (d : Screens S)
      → IsApart IsAlive d.objects d.lib
      → let (s, o) = lv.create kind parent d.lib in
        let after = assign lv field o (record d { lib = s }) in
        IsApart IsAlive after.objects after.lib
  unfolding assign
  assign-IsApart none kind parent d h =
      IsApart-kept refl (λ o. laws.create_kept kind parent o d.lib) h
  assign-IsApart (some k) kind parent d h =
      let (s, n) = lv.create kind parent d.lib in
      let new : (f o : ℕ) → d.objects f ≡ some o → n ≢ o = λ f o e same.
        laws.fresh kind parent d.lib (subst (λ p. IsAlive p d.lib) (sym same) (h.alive f o e)) in
      record {
        alive = λ f o e. elim (put_object-cases k n d.objects f o e) [
          | inl (_, same) ↦ subst (λ p. IsAlive p s) same (laws.alive kind parent d.lib)
          | inr old ↦ laws.create_kept kind parent o d.lib (h.alive f o old)
        ];
        apart = λ f g o e e'. elim (put_object-cases k n d.objects f o e) [
          | inl (at_f, same) ↦ elim (put_object-cases k n d.objects g o e') [
            | inl (at_g, _) ↦ at_f ∙ sym at_g
            | inr old ↦ absurd (new g o old same)
          ]
          | inr old ↦ elim (put_object-cases k n d.objects g o e') [
            | inl (_, same) ↦ absurd (new f o old same)
            | inr old' ↦ h.apart f g o old old'
          ]
        ];
      }

  mutual
    unfolding build

    build-IsApart :
        (parent : Option ℕ) (w : Widget) (d : Screens S)
        → IsApart IsAlive d.objects d.lib
        → let after = build lv parent w d in IsApart IsAlive after.objects after.lib
    build-IsApart parent (widget kind field calls inside) d h = build_all-IsApart _ inside _ (
        IsApart-kept (calls_on-objects lv _ calls _) (calls_on-IsAlive _ calls _)
          (assign-IsApart field kind parent d h))

    build_all-IsApart :
        (parent : ℕ) (ws : Widgets) (d : Screens S)
        → IsApart IsAlive d.objects d.lib
        → let after = build_all lv parent ws d in IsApart IsAlive after.objects after.lib
    build_all-IsApart parent leaf d h = h
    build_all-IsApart parent (w ▹ ws) d h =
        build_all-IsApart parent ws _ (build-IsApart (some parent) w d h)

  build_screens-IsApart :
      (ws : List Widget) (d : Screens S)
      → IsApart IsAlive d.objects d.lib
      → let after = build_screens lv ws d in IsApart IsAlive after.objects after.lib
  unfolding build_screens
  build_screens-IsApart [] d h = h
  build_screens-IsApart (w ∷ ws) d h = build_screens-IsApart ws _ (build-IsApart none w d h)

  create_screens-IsApart_from :
      (version : List ℕ) (d after : Screens S)
      → IsApart IsAlive d.objects d.lib
      → create_screens lv version d ≡ some after
      → IsApart IsAlive after.objects after.lib
  create_screens-IsApart_from version d after h e =
      let steps = create_screens-IsCreated lv version d in
      let boot_built =
        build-IsApart none boot_screen_layout (record d { lib = lv.set_theme d.lib })
          (IsApart-kept refl (λ o. laws.theme_kept o d.lib) h) in
      let boot =
        IsApart-kept steps.boot_kept
          (λ o. steps.boot_lib (IsAlive o) (λ p text. laws.text_kept p text o)) boot_built in
      let about_built =
        build-IsApart none about_screen_layout _
          (build_screens-IsApart first_layouts steps.boot boot) in
      let about =
        IsApart-kept steps.about_kept
          (λ o. steps.about_lib (IsAlive o) (λ p text. laws.text_kept p text o)) about_built in
      let same : build_screens lv last_layouts steps.about ≡ after =
        some_inj (sym steps.returned ∙ e) in
      subst (λ a. IsApart IsAlive a.objects a.lib) same
        (build_screens-IsApart last_layouts steps.about about)

-- `create_screens`, from the state where no pointer is set, sets the pointers of different fields to
-- different objects, if the graphics library keeps its laws.
pub create_screens-IsApart :
    {S : Type 0} (lv : Lvgl S) (IsAlive : ℕ → S → Type 0) (version : List ℕ) (d after : Screens S)
    → LvglLaws lv IsAlive
    → d.objects ≡ no_objects
    → create_screens lv version d ≡ some after
    → (f g o : ℕ) → after.objects f ≡ some o
    → after.objects g ≡ some o
    → f ≡ g
create_screens-IsApart lv IsAlive version d after laws empty e =
    (create_screens-IsApart_from lv IsAlive laws version d after
      (record {
        alive = λ f o e'. absurd (none-ne (ap (λ p. p f) (sym empty) ∙ e'));
        apart = λ f g o e' _. absurd (none-ne (ap (λ p. p f) (sym empty) ∙ e'));
      })
      e).apart
