-- ===== src/Screen/Tick.antt =====
-- The periodic update of the screens: `ui_tick` of eez/src/ui/ui.c, with the functions of
-- eez/src/ui/screens.c that it calls. The pointer `tick_value_change_obj`, which is NULL again after
-- each change, is left out.
use hardware_os.Base.{
  ℕ, zero, suc, length, ◌<◌, ◌≡◌, ◌≢◌, refl, sym, ◌∙◌, inl, inr, not, Option, none, some, List, [],
  ◌∷◌, arith, if◌then◌else◌, Bool-cases, take, get_or,
}
use hardware_os.Base.Int.{ℤ, pos, negsuc, ◌≤ℤ◌}
use hardware_os.Base.CString.{IsText}
use hardware_os.Ui.Vars.{
  Vars, get_var_app_version, get_var_system_version, get_var_lvgl_version, set_var_app_version,
  get-set, get_var_lvgl_version_cuts,
}
use hardware_os.Ui.Navigation.{
  Nav, Action, Gesture, bytes_eq, ui_init, run_actions, run_actions-IsShown,
}
use hardware_os.Screen.{Labels}
use hardware_os.Screen.Objects.{bytes_eq_sound}

-- The labels of `objects` that show a version: those of the screen with the versions, and with them
-- that of the boot screen.
pub record AboutLabels : Type 0 where
  pub system_version : ℕ
  pub app_version : ℕ
  pub lvgl_version : ℕ

pub record VersionLabels : Type 0 where
  pub boot_screen_version : ℕ
  pub about : AboutLabels

-- The library's state S holds the texts.
module _ {S : Type 0} (lv : Labels S) where
  -- `if (strcmp(new_val, cur_val) != 0) lv_label_set_text(label, new_val);`
  change_text : ℕ → List ℕ → S → S
  change_text label new_val s =
      if not (bytes_eq new_val (lv.get_text label s)) then lv.set_text label new_val s else s

  unfoldable pub tick_screen_boot_screen : ℕ → Vars × S → Vars × S
  unfolding change_text
  tick_screen_boot_screen boot_screen_version (vars, s) =
      (vars, change_text boot_screen_version (get_var_app_version vars) s)

  -- `version` is what `get_var_lvgl_version` reads from the library.
  unfoldable pub tick_screen_about_screen : AboutLabels → List ℕ → Vars × S → Vars × S
  unfolding change_text
  tick_screen_about_screen objects version (vars, s) =
      let s1 = change_text objects.system_version (get_var_system_version vars) s in
      let s2 = change_text objects.app_version (get_var_app_version vars) s1 in
      let (after, text) = get_var_lvgl_version version vars in
      (after, change_text objects.lvgl_version text s2)

-- A property that setting texts keeps is kept by a tick.
module _ {S : Type 0} (lv : Labels S) (P : S → Type 0)
    (kept : (o : ℕ) (text : List ℕ) (s : S) → P s → P (lv.set_text o text s)) where
  change_text_keeps : (o : ℕ) (text : List ℕ) (s : S) → P s → P (change_text lv o text s)
  unfolding change_text
  change_text_keeps o text s h = elim (Bool-cases (bytes_eq text (lv.get_text o s))) [
    | inl shown ↦ rw shown h
    | inr differs ↦ rw differs (kept o text s h)
  ]

  pub tick_screen_boot_screen_keeps :
      (label : ℕ) (vars : Vars) (s : S) → P s → P (tick_screen_boot_screen lv label (vars, s)).1
  unfolding tick_screen_boot_screen
  tick_screen_boot_screen_keeps label vars s h = change_text_keeps label _ s h

  pub tick_screen_about_screen_keeps :
      (objects : AboutLabels) (version : List ℕ) (vars : Vars) (s : S)
      → P s
      → P (tick_screen_about_screen lv objects version (vars, s)).1
  unfolding tick_screen_about_screen
  tick_screen_about_screen_keeps objects version vars s h =
      change_text_keeps _ _ _ (change_text_keeps _ _ _ (change_text_keeps _ _ _ h))

module _ {S : Type 0} (lv : Labels S) (objects : VersionLabels) (version : List ℕ) where
  -- A screen without such a text.
  abbrev tick_nothing : Vars × S → Vars × S
  tick_nothing t = t

  -- In the order of the screens.
  tick_screen_funcs : List (Vars × S → Vars × S)
  tick_screen_funcs =
      tick_screen_boot_screen lv objects.boot_screen_version
      ∷ tick_nothing
      ∷ tick_nothing
      ∷ tick_nothing
      ∷ tick_nothing
      ∷ tick_nothing
      ∷ tick_screen_about_screen lv objects.about version
      ∷ tick_nothing
      ∷ tick_nothing
      ∷ tick_nothing
      ∷ tick_nothing
      ∷ tick_nothing
      ∷ []

  call_at : List (Vars × S → Vars × S) → ℕ → Vars × S → Option (Vars × S)
  call_at [] n t = none
  call_at (f ∷ fs) zero t = some (f t)
  call_at (f ∷ fs) (suc n) t = call_at fs n t

  -- `none` is a call through a pointer outside the table.
  unfoldable pub tick_screen : ℤ → Vars × S → Option (Vars × S)
  unfolding tick_screen_funcs call_at
  tick_screen (negsuc n) t = none
  tick_screen (pos n) t = call_at tick_screen_funcs n t

  unfoldable pub ui_tick : Nav → Vars × S → Option (Vars × S)
  unfolding tick_screen
  ui_tick nav t = tick_screen nav.current_screen t

  call_at_within :
      (fs : List (Vars × S → Vars × S)) (n : ℕ) (t : Vars × S)
      → n < length fs
      → call_at fs n t ≢ none
  unfolding call_at
  call_at_within [] n t h = elim h [ ]
  call_at_within (f ∷ fs) zero t h = λ e. cc
  call_at_within (f ∷ fs) (suc n) t h = call_at_within fs n t (omega arith)

  -- The screens' numbers are in the table.
  pub tick_screen_within :
      (c : ℤ) (t : Vars × S) → pos 0 ≤ℤ c → c ≤ℤ pos 11 → tick_screen c t ≢ none
  unfolding tick_screen tick_screen_funcs
  tick_screen_within (pos n) t lo hi = call_at_within tick_screen_funcs n t (omega arith)
  tick_screen_within (negsuc n) t lo hi = absurd (omega arith)

  -- After `ui_init` and any event handlers, `ui_tick` calls a function of the table.
  ui_tick_in_bounds :
      (screens : ℕ → Option ℕ) (acts : List (Action × Gesture × Vars)) (s : Nav) (t : Vars × S)
      → ui_tick (run_actions screens acts (ui_init screens s)) t ≢ none
  unfolding ui_tick
  ui_tick_in_bounds screens acts s t =
      let shown = run_actions-IsShown screens acts s in
      tick_screen_within (run_actions screens acts (ui_init screens s)).current_screen t shown.lower
        shown.upper

-- A label shows the text that it was given last, and setting another leaves it.
pub record LabelLaws {S : Type 0} (lv : Labels S) : Type 0 where
  pub same : (o : ℕ) (text : List ℕ) (s : S) → lv.get_text o (lv.set_text o text s) ≡ text
  pub other :
      (o p : ℕ) (text : List ℕ) (s : S)
      → o ≢ p
      → lv.get_text p (lv.set_text o text s) ≡ lv.get_text p s

-- The labels of the screen with the versions are three.
pub record AreApart (objects : AboutLabels) : Type 0 where
  pub system_app : objects.system_version ≢ objects.app_version
  pub system_lvgl : objects.system_version ≢ objects.lvgl_version
  pub app_lvgl : objects.app_version ≢ objects.lvgl_version

module _ {S : Type 0} (lv : Labels S) (objects : AboutLabels) (version : List ℕ)
    (laws : LabelLaws lv) where
  change_text_same :
      (o : ℕ) (text : List ℕ) (s : S) → lv.get_text o (change_text lv o text s) ≡ text
  unfolding change_text
  change_text_same o text s = elim (Bool-cases (bytes_eq text (lv.get_text o s))) [
    | inl shown ↦ rw shown (sym (bytes_eq_sound text (lv.get_text o s) shown))
    | inr differs ↦ rw differs (laws.same o text s)
  ]

  change_text_other :
      (o p : ℕ) (text : List ℕ) (s : S)
      → o ≢ p
      → lv.get_text p (change_text lv o text s) ≡ lv.get_text p s
  unfolding change_text
  change_text_other o p text s apart = elim (Bool-cases (bytes_eq text (lv.get_text o s))) [
    | inl shown ↦ rw shown refl
    | inr differs ↦ rw differs (laws.other o p text s apart)
  ]

  -- If labels show what they are given, and the three labels are three, a tick of the screen with the
  -- versions makes them show the three variables as they were before the tick.
  pub tick_screen_about_screen_shows :
      (vars : Vars) (s : S)
      → AreApart objects
      → let after = (tick_screen_about_screen lv objects version (vars, s)).1 in
        (lv.get_text objects.system_version after ≡ get_var_system_version vars)
        × (lv.get_text objects.app_version after ≡ get_var_app_version vars)
        × (lv.get_text objects.lvgl_version after ≡ (get_var_lvgl_version version vars).1)
  unfolding tick_screen_about_screen
  tick_screen_about_screen_shows vars s apart =
      let s1 = change_text lv objects.system_version (get_var_system_version vars) s in
      let s2 = change_text lv objects.app_version (get_var_app_version vars) s1 in
      let text = (get_var_lvgl_version version vars).1 in
      (
        change_text_other objects.lvgl_version objects.system_version text s2
              (λ e. apart.system_lvgl (sym e))
            ∙ change_text_other objects.app_version objects.system_version
                (get_var_app_version vars) s1 (λ e. apart.system_app (sym e))
            ∙ change_text_same objects.system_version (get_var_system_version vars) s,
        change_text_other objects.lvgl_version objects.app_version text s2
              (λ e. apart.app_lvgl (sym e))
            ∙ change_text_same objects.app_version (get_var_app_version vars) s1,
        change_text_same objects.lvgl_version text s2,
      )

  -- The screen with the versions shows a version of the application that was set, cut to 99 characters,
  -- at its first tick, and at its second one cut to 31, if the first tick is the first read of the
  -- version of the graphics library, labels show what they are given and the three labels are three.
  tick_screen_about_screen_cuts :
      (value : List ℕ) (vars : Vars) (s : S)
      → AreApart objects
      → IsText value
      → get_or vars.lvgl_version 0 0 ≡ 0
      → let once =
          tick_screen_about_screen lv objects version (set_var_app_version value vars, s) in
        let twice = tick_screen_about_screen lv objects version once in
        (lv.get_text objects.app_version once.1 ≡ take 99 value)
        × (lv.get_text objects.app_version twice.1 ≡ take 31 value)
  unfolding tick_screen_about_screen
  tick_screen_about_screen_cuts value vars s apart text first =
      let set = set_var_app_version value vars in
      let once = tick_screen_about_screen lv objects version (set, s) in
      let (_, shows, _) = tick_screen_about_screen_shows set s apart in
      let (_, again, _) = tick_screen_about_screen_shows once.0 once.1 apart in
      (shows ∙ (get-set value vars text).0, again ∙ cut)
    where
      cut :
          get_var_app_version
            (tick_screen_about_screen lv objects version (set_var_app_version value vars, s)).0
          ≡ take 31 value
      cut = get_var_lvgl_version_cuts version value vars text first
