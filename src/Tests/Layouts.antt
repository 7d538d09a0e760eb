-- ===== src/Tests/Layouts.antt =====
-- The screens, created and used at concrete inputs (eez/src/ui/screens.c and eez/src/ui/actions.c).
use hardware_os.Base.{
  ◌>>=◌, some_inj, sym, ◌∙◌, ℕ, suc, ◌≡◌, ◌≢◌, ◌↔◌, ◌<◌, refl, ◌⊎◌, false, Option, none, some, List,
  [], ◌∷◌, arith, ◌==◌, ==_iff, if◌then◌else◌,
}
use mathlib.Core.List.{Memᴰ}
use hardware_os.Base.CString.{codes}
use hardware_os.Base.Int.{pos, negsuc}
use hardware_os.Ui.Vars.{Vars, initial, set_var_app_version}
use hardware_os.Ui.Hold.{Buttons, HoldState}
use hardware_os.Ui.Navigation
use hardware_os.Ui.Navigation.{Nav}
use hardware_os.Screen.{Entry, ui_get_obj, jetkvm_ui_load_screen}
use hardware_os.Screen.Tick.{AboutLabels, LabelLaws}
use hardware_os.Screen.Layout.Fields
use hardware_os.Handlers.{no_handlers}
use hardware_os.Screen.Start.{Panel, Ui, lvgl_init}
use hardware_os.Screen.Start.Runs.{
  UiStep, ticks, sets_app_version, receives, ui_steps, lvgl_init-ui_steps,
}
use hardware_os.Screen.Start.Runs
use hardware_os.Screen.Layout.{navigates, reset_config, pressing, clicked, Handler, EventCode}
use hardware_os.Screen.Layout.ResetConfigScreen.{reset_config_screen_layout}
use hardware_os.Screen.Build.{Lvgl, Screens, no_objects, build, calls_on, assign, create_screens}
use hardware_os.Screen.Build
use hardware_os.Screen.Build.Apart.{LvglLaws}
use hardware_os.Screen.Build.Complete.{IsComplete, create_screens-IsComplete}
use hardware_os.Screen.Build.Versions.{about_ticks, create_screens-about_ticks}
use hardware_os.Screen.Wiring.{callbacks, loads, here, next}
use hardware_os.Screen.Wiring.Abstract.{run_handlers, screen_after, ui_init-screen_after}
use hardware_os.Screen.Wiring.Menu.{HasWay, Fires-menu}
use hardware_os.Screen.Wiring.Presses.{press, methods, IsOwnCall, press_sound}
use hardware_os.Screen.Wiring.Shown.{IsLaidOut, ui_init-Reach}

-- A graphics library that numbers its objects, and holds the texts of the labels.
record Library : Type 0 where
  count : ℕ
  texts : ℕ → List ℕ

abbrev lvgl : Lvgl Library
lvgl = record {
  create = λ kind parent s. (record s { count = suc s.count }, s.count);
  labels = record {
    get_text = λ o s. s.texts o;
    set_text = λ o text s. record s { texts = λ p. if p == o then text else s.texts p };
  };
  styles = record { obj_add_style = λ o id s. s; obj_remove_style = λ o id s. s };
  set_theme = λ s. s;
  call = λ c o s. s;
}

abbrev IsNumbered : ℕ → Library → Type 0
IsNumbered o s = o < s.count

lvgl-LvglLaws : LvglLaws lvgl IsNumbered
lvgl-LvglLaws = record {
  fresh = λ kind parent s h. omega arith;
  alive = λ kind parent s. omega arith;
  create_kept = λ kind parent o s h. omega arith;
  call_kept = λ c p o s h. h;
  text_kept = λ p text o s h. h;
  style_kept = λ p id o s h. h;
  theme_kept = λ o s h. h;
}

lvgl-LabelLaws : LabelLaws lvgl.labels
lvgl-LabelLaws = record {
  same = λ o text s. rw ((==_iff o o).1 refl) refl;
  other = λ o p text s apart. ground arith;
}

abbrev before : Screens Library
before = record {
  objects = no_objects;
  styles = λ id. none;
  vars = initial;
  lib = record { count = 0; texts = λ o. [] };
}

abbrev version : List ℕ
version = codes "9.3.0"

abbrev or_before : Option (Screens Library) → Screens Library
or_before none = before
or_before (some d) = d

abbrev created : Screens Library
created = or_before (create_screens lvgl version before)

made : create_screens lvgl version before ≡ some created
unfolding create_screens build calls_on assign
made = refl

-- The objects are numbered as they are created.
first_object : created.objects Fields.boot_screen ≡ some 0
unfolding create_screens build calls_on assign
first_object = refl

create_screens-IsComplete_example : IsComplete lvgl version before
create_screens-IsComplete_example = create_screens-IsComplete lvgl version before

-- The objects of the labels.
abbrev label_of : Option ℕ → ℕ
label_of none = 0
label_of (some o) = o

abbrev about_labels : AboutLabels
about_labels = record {
  system_version = label_of (created.objects Fields.system_version);
  app_version = label_of (created.objects Fields.app_version);
  lvgl_version = label_of (created.objects Fields.lvgl_version);
}

found_system : created.objects Fields.system_version ≡ some about_labels.system_version
unfolding create_screens build calls_on assign
found_system = refl

found_app : created.objects Fields.app_version ≡ some about_labels.app_version
unfolding create_screens build calls_on assign
found_app = refl

found_lvgl : created.objects Fields.lvgl_version ≡ some about_labels.lvgl_version
unfolding create_screens build calls_on assign
found_lvgl = refl

create_screens-about_ticks_example :
    (about_ticks lvgl about_labels version 3
        (set_var_app_version (codes "0.4.8") created.vars, created.lib)).1.texts
      about_labels.app_version
    ≡ codes "0.4.8"
create_screens-about_ticks_example =
    create_screens-about_ticks lvgl IsNumbered version before created about_labels (codes "0.4.8") 2
      created.lib lvgl-LvglLaws lvgl-LabelLaws refl made found_system found_app found_lvgl
      (λ e. omega arith)
      (omega arith, (omega arith, (omega arith, (omega arith, (omega arith, tt)))))

abbrev nothing_shown : Nav
nothing_shown = record { current_screen = negsuc 0; active = none }

abbrev started : Nav
started = Navigation.ui_init created.objects nothing_shown

starts : Build.ui_init lvgl version before nothing_shown ≡ some (created, started)
unfolding Build.ui_init
starts = rw made refl

-- The firmware loads the home screen by its name.
abbrev home_table : List Entry
home_table = record { name = codes "home_screen"; obj = some 30 } ∷ []

-- Fields that are numbered by their positions.
abbrev in_order : ℕ → Option ℕ
in_order f = some f

in_order-IsLaidOut : IsLaidOut in_order
in_order-IsLaidOut = record {
  all = λ f lt e. ground arith;
  apart = λ f g o e e'. some_inj (e ∙ sym e');
}

home_differs :
    ui_get_obj home_table (codes "home_screen") ≢ created.objects Fields.menu_network_screen
unfolding ui_get_obj create_screens build calls_on assign
home_differs e = ground arith

home_apart : ui_get_obj home_table (codes "home_screen") ≢ in_order Fields.menu_network_screen
unfolding ui_get_obj
home_apart e = ground arith

reset_button :
    Memᴰ {A = Handler × EventCode} (reset_config, pressing) (callbacks reset_config_screen_layout)
unfolding callbacks
reset_button = Memᴰ.tail (Memᴰ.tail (Memᴰ.tail (Memᴰ.head refl)))

ui_init-Reach_example :
    (jetkvm_ui_load_screen home_table (codes "home_screen") started.active ≢ none)
    × (jetkvm_ui_load_screen home_table (codes "home_screen") started.active
        ≢ created.objects Fields.menu_network_screen)
ui_init-Reach_example =
    ui_init-Reach lvgl IsNumbered version before created nothing_shown started
      (record started {
        active = jetkvm_ui_load_screen home_table (codes "home_screen") started.active;
      })
      (record { laws = lvgl-LvglLaws; empty = refl; returned = starts })
      (next here (loads home_table (codes "home_screen") home_differs))

abbrev no_gesture : Navigation.Gesture
no_gesture = record { is_gesture = false; direction = Navigation.left }

abbrev to_about : List (Handler × Navigation.Gesture × Vars)
to_about =
    (navigates Navigation.switch_to_menu, no_gesture, initial)
    ∷ (navigates Navigation.switch_to_about, no_gesture, initial)
    ∷ []

ui_init-screen_after_example :
    ((run_handlers created.objects to_about started).active ≡ created.objects Fields.about_screen)
    ↔ (screen_after to_about Fields.boot_screen ≡ Fields.about_screen)
ui_init-screen_after_example =
    ui_init-screen_after lvgl IsNumbered version before created nothing_shown started to_about
      Fields.about_screen (record { laws = lvgl-LvglLaws; empty = refl; returned = starts })
      (omega arith)

abbrev at_status : Nav
at_status = record { current_screen = pos 7; active = created.objects Fields.status_screen }

Fires-menu_example : (Fields.status_screen ≡ Fields.menu_screen) ⊎ HasWay created.objects at_status
Fires-menu_example =
    Fires-menu created.objects Fields.status_screen at_status (omega arith) (λ e. omega arith)
      (λ e. omega arith) refl

-- The button for a factory reset is held, and its time is over.
abbrev held : HoldState
held = record { start_time = 5; completed = false; lock = false }

abbrev buttons : Buttons
buttons = record { reset_config_state = held; reboot_state = held; dhcpc_state = held }

press_sound_example :
    let out = methods (press reset_config 11000 (λ t. 10995) pressing buttons).1 in
    (out ≡ []) ⊎ ((pressing ≡ pressing) × IsOwnCall Fields.reset_config_screen out)
press_sound_example =
    press_sound Fields.reset_config_screen reset_config_screen_layout reset_config pressing 11000
      (λ t. 10995) buttons refl reset_button

abbrev panel : Panel Library
panel = record { lvgl = lvgl; setup = λ c s. s; timer_handler = λ s. s; print = λ n. codes "1" }

abbrev off : Ui Library
off = record {
  screens = before;
  nav = record { current_screen = negsuc 0; active = none };
  rotation = 0;
  buttons = buttons;
  handlers = no_handlers;
}

abbrev evening : List UiStep
evening =
    ticks
    ∷ sets_app_version (codes "0.4.8")
    ∷ Runs.loads home_table (codes "home_screen")
    ∷ receives reset_config pressing no_gesture 11000 (λ t. 4000)
    ∷ receives (navigates Navigation.switch_to_about) clicked no_gesture 12000 (λ t. 0)
    ∷ ticks
    ∷ []

lvgl_init-ui_steps_example :
    (lvgl_init panel [] version 90 off >>= ui_steps panel version evening) ≢ none
lvgl_init-ui_steps_example = lvgl_init-ui_steps panel version [] 90 off evening
