-- ===== src/Screen/Build/Complete.antt =====
-- The pointers of `objects` after `create_screens` of eez/src/ui/screens.c.
use hardware_os.Base.{
  all_below, all_below_sound, ℕ, ◌<◌, ◌≡◌, ◌≢◌, refl, inl, inr, Bool, true, ◌||◌, none, some, List,
  Bool-cases,
}
use hardware_os.Screen.Layout.Fields
use hardware_os.Screen.Layout.AboutScreen.{about_screen_layout}
use hardware_os.Screen.Layout.BootScreen.{boot_screen_layout}
use hardware_os.Screen.Build.{Lvgl, Screens, create_screens}
use hardware_os.Screen.Build.Sets.{
  assigns, assigns_any, build_screens, HasField, HasField-kept, build-keeps, build-sets,
  build_screens-keeps, build_screens-sets,
}
use hardware_os.Screen.Build.Steps.{
  first_layouts, last_layouts, IsCreated, create_screens-IsCreated,
}

-- Some screen sets the field.
assigned : ℕ → Bool
assigned f =
    assigns f boot_screen_layout
    || assigns_any f first_layouts
    || assigns f about_screen_layout
    || assigns_any f last_layouts

all_assigned : all_below Fields.fields assigned ≡ true
unfolding assigned assigns assigns_any
all_assigned = refl

module _ {S : Type 0} (lv : Lvgl S) (f : ℕ) {version : List ℕ} {d : Screens S}
    (steps : IsCreated lv version d) where
  sets_before_about : assigns f boot_screen_layout ≡ true → HasField lv f steps.about
  sets_before_about h = HasField-kept lv f steps.about_kept (
      build-keeps lv f none about_screen_layout _ (
        build_screens-keeps lv f first_layouts steps.boot
          (HasField-kept lv f steps.boot_kept (build-sets lv f none boot_screen_layout _ h))))

  sets_first : assigns_any f first_layouts ≡ true → HasField lv f steps.about
  sets_first h =
      HasField-kept lv f steps.about_kept
        (build-keeps lv f none about_screen_layout _ (build_screens-sets lv f first_layouts _ h))

  sets_about : assigns f about_screen_layout ≡ true → HasField lv f steps.about
  sets_about h = HasField-kept lv f steps.about_kept (build-sets lv f none about_screen_layout _ h)

  sets_last : HasField lv f steps.about → HasField lv f (build_screens lv last_layouts steps.about)
  sets_last h = build_screens-keeps lv f last_layouts steps.about h

  sets_assigned : assigned f ≡ true → HasField lv f (build_screens lv last_layouts steps.about)
  unfolding assigned
  sets_assigned h = elim (Bool-cases (assigns f boot_screen_layout)) [
    | inl boot ↦ sets_last (sets_before_about boot)
    | inr rest ↦ elim (Bool-cases (assigns_any f first_layouts)) [
      | inl first ↦ sets_last (sets_first first)
      | inr others ↦ elim (Bool-cases (assigns f about_screen_layout)) [
        | inl about ↦ sets_last (sets_about about)
        | inr last ↦ build_screens-sets lv f last_layouts _ (rw (rest, others, last) at h)
      ]
    ]
  ]

-- `create_screens` comes to an end, and each pointer of `objects` is then set.
pub record IsComplete {S : Type 0} (lv : Lvgl S) (version : List ℕ) (d : Screens S) : Type 0 where
  pub after : Screens S
  pub returned : create_screens lv version d ≡ some after
  pub all : (f : ℕ) → f < Fields.fields → after.objects f ≢ none

-- For any graphics library and any state, `create_screens` reads no pointer that is NULL, and after it
-- each pointer of `objects` is set.
pub create_screens-IsComplete :
    {S : Type 0} (lv : Lvgl S) (version : List ℕ) (d : Screens S) → IsComplete lv version d
create_screens-IsComplete lv version d =
    let steps = create_screens-IsCreated lv version d in
    record {
      after = build_screens lv last_layouts steps.about;
      returned = steps.returned;
      all = λ f lt.
          sets_assigned lv f steps (all_below_sound Fields.fields assigned all_assigned f lt);
    }
