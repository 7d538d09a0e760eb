-- ===== src/Screen/Build/Versions.antt =====
-- The version of the application on its screen, in the order that the program starts: `ui_init` of
-- eez/src/ui/ui.c creates the screens, then the version is set, and then the screen is updated.
use hardware_os.Base.{
  ℕ, zero, suc, ◌≡◌, ◌≢◌, refl, ap, ◌∙◌, sym, subst, Option, none, some, some_inj, List, [], ◌∷◌,
  take, get_or, arith,
}
use hardware_os.Base.CString.{IsText}
use hardware_os.Ui.Vars.{
  Vars, get_var_app_version, set_var_app_version, get-set, IsRead, get_var_lvgl_version-IsRead,
  get_var_lvgl_version_again,
}
use hardware_os.Screen.Tick.{
  AboutLabels, LabelLaws, AreApart, tick_screen_about_screen, tick_screen_about_screen_shows,
}
use hardware_os.Screen.Layout.Fields
use hardware_os.Screen.Layout.{Call, add_style, label_set_text, Widget, widget, Widgets, leaf, ◌▹◌}
use hardware_os.Screen.Build.{
  Lvgl, Screens, no_objects, call_on, calls_on, assign, build, build_all, create_screens,
}
use hardware_os.Screen.Build.Sets.{build_screens}
use hardware_os.Screen.Build.Steps.{last_layouts, create_screens-IsCreated}
use hardware_os.Screen.Build.Apart.{LvglLaws, create_screens-IsApart}

-- Creating widgets changes no variable.
module _ {S : Type 0} (lv : Lvgl S) where
  call_on-vars : (o : ℕ) (c : Call) (d : Screens S) → (call_on lv o c d).vars ≡ d.vars
  unfolding call_on
  call_on-vars o (add_style id) d = refl
  call_on-vars o (label_set_text text) d = refl
  call_on-vars o c d = refl

  calls_on-vars : (o : ℕ) (cs : List Call) (d : Screens S) → (calls_on lv o cs d).vars ≡ d.vars
  unfolding calls_on
  calls_on-vars o [] d = refl
  calls_on-vars o (c ∷ cs) d = calls_on-vars o cs (call_on lv o c d) ∙ call_on-vars o c d

  assign-vars : (field : Option ℕ) (o : ℕ) (d : Screens S) → (assign lv field o d).vars ≡ d.vars
  unfolding assign
  assign-vars none o d = refl
  assign-vars (some f) o d = refl

  mutual
    unfolding build

    build-vars :
        (parent : Option ℕ) (w : Widget) (d : Screens S) → (build lv parent w d).vars ≡ d.vars
    build-vars parent (widget kind field calls inside) d =
        build_all-vars _ inside _ ∙ (calls_on-vars _ calls _ ∙ assign-vars field _ _)

    build_all-vars :
        (parent : ℕ) (ws : Widgets) (d : Screens S) → (build_all lv parent ws d).vars ≡ d.vars
    build_all-vars parent leaf d = refl
    build_all-vars parent (w ▹ ws) d = build_all-vars parent ws _ ∙ build-vars (some parent) w d

  build_screens-vars : (ws : List Widget) (d : Screens S) → (build_screens lv ws d).vars ≡ d.vars
  unfolding build_screens
  build_screens-vars [] d = refl
  build_screens-vars (w ∷ ws) d = build_screens-vars ws _ ∙ build-vars none w d

  -- The version of the library is read while the screens are created.
  create_screens-IsRead :
      (version : List ℕ) (d after : Screens S)
      → get_or version 0 0 ≢ 0
      → create_screens lv version d ≡ some after
      → IsRead after.vars
  create_screens-IsRead version d after h e =
      let steps = create_screens-IsCreated lv version d in
      subst (λ a. IsRead a.vars) (some_inj (sym steps.returned ∙ e))
        (subst IsRead (sym (build_screens-vars last_layouts steps.about ∙ steps.about_vars))
          (get_var_lvgl_version-IsRead version _ h))

  -- Updates of the screen with the versions, one after the other.
  unfoldable pub about_ticks : AboutLabels → List ℕ → ℕ → Vars × S → Vars × S
  about_ticks labels version zero t = t
  about_ticks labels version (suc n) t =
      about_ticks labels version n (tick_screen_about_screen lv.labels labels version t)

  module _ (labels : AboutLabels) (version : List ℕ) (laws : LabelLaws lv.labels)
      (apart : AreApart labels) where
    tick-vars :
        (vars : Vars) (s : S)
        → IsRead vars
        → (tick_screen_about_screen lv.labels labels version (vars, s)).0 ≡ vars
    unfolding tick_screen_about_screen
    tick-vars vars s read = get_var_lvgl_version_again version vars read

    about_ticks_show :
        (n : ℕ) (vars : Vars) (s : S)
        → IsRead vars
        → lv.labels.get_text labels.app_version (about_ticks labels version (suc n) (vars, s)).1
          ≡ get_var_app_version vars
    unfolding about_ticks
    about_ticks_show zero vars s read =
        (tick_screen_about_screen_shows lv.labels labels version laws vars s apart).1
    about_ticks_show (suc n) vars s read =
        let (vars', s') = tick_screen_about_screen lv.labels labels version (vars, s) in
        let same : vars' ≡ vars = tick-vars vars s read in
        about_ticks_show n vars' s' (subst IsRead (sym same) read) ∙ ap get_var_app_version same

-- If the screens are created from the state where no pointer is set, the graphics library keeps its
-- laws, its version is not empty and labels show what they are given, then a version of the application
-- that is set after is shown at each update of the screen with the versions, cut to 99 characters.
pub create_screens-about_ticks :
    {S : Type 0} (lv : Lvgl S) (IsAlive : ℕ → S → Type 0) (version : List ℕ) (d after : Screens S)
    (labels : AboutLabels) (value : List ℕ) (n : ℕ) (s : S)
    → LvglLaws lv IsAlive
    → LabelLaws lv.labels
    → d.objects ≡ no_objects
    → create_screens lv version d ≡ some after
    → after.objects Fields.system_version ≡ some labels.system_version
    → after.objects Fields.app_version ≡ some labels.app_version
    → after.objects Fields.lvgl_version ≡ some labels.lvgl_version
    → get_or version 0 0 ≢ 0
    → IsText value
    → lv.labels.get_text labels.app_version
        (about_ticks lv labels version (suc n) (set_var_app_version value after.vars, s)).1
      ≡ take 99 value
unfolding set_var_app_version
create_screens-about_ticks lv IsAlive version d after labels value n s laws label_laws empty made
      system app lvgl h text =
    let differ = create_screens-IsApart lv IsAlive version d after laws empty made in
    let apart : AreApart labels = record {
      system_app = λ e. omega (
        arith,
        (differ Fields.system_version Fields.app_version _ system (app ∙ ap some (sym e))),
      );
      system_lvgl = λ e. omega (
        arith,
        (differ Fields.system_version Fields.lvgl_version _ system (lvgl ∙ ap some (sym e))),
      );
      app_lvgl = λ e.
          omega
            (arith, (differ Fields.app_version Fields.lvgl_version _ app (lvgl ∙ ap some (sym e))));
    } in
    about_ticks_show lv labels version label_laws apart n _ s
      (create_screens-IsRead lv version d after h made)
    ∙ (get-set value after.vars text).0
