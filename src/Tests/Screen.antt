-- ===== src/Tests/Screen.antt =====
-- Objects, labels and the rotation at concrete inputs (cgo/screen.c and cgo/ctrl.c).
use hardware_os.Base.{
  ℕ, zero, suc, ◌+◌, ◌≡◌, refl, Bool, true, false, Option, none, some, List, [], ◌∷◌, arith, ◌==◌,
  ==_iff, ◌&&◌, if◌then◌else◌, replicate,
}
use hardware_os.Base.Int.{negsuc}
use hardware_os.Base.CString.{codes, IsText}
use hardware_os.Ui.Navigation.{Nav, Gesture, left}
use hardware_os.Screen.Widgets.{ObjFlags, Widgets}
use hardware_os.Screen.Styles.{flex_screen, flex_screen_menu, back_button}
use hardware_os.Screen.Styles.Rotation.{
  StyleEntry, ui_get_style, lvgl_set_rotation, uses, rotates, style_ops,
}
use hardware_os.Screen.Styles.Rotation.Paddings.{HasPaddings, HasStyles, lvgl_set_rotation_menu}
use hardware_os.Screen.Tick.{VersionLabels, LabelLaws}
use hardware_os.Screen.{Entry, ui_get_obj, Labels}
use hardware_os.Screen.Objects.{IsDistinct}

-- Two screens, and one that is not created.
abbrev table : List Entry
table =
    record { name = b'h' ∷ b'o' ∷ b'm' ∷ b'e' ∷ []; obj = some 11 }
    ∷ record { name = b'm' ∷ b'e' ∷ b'n' ∷ b'u' ∷ []; obj = some 12 }
    ∷ record { name = b'b' ∷ b'o' ∷ b'o' ∷ b't' ∷ []; obj = none }
    ∷ []

table-IsDistinct : IsDistinct table
table-IsDistinct =
    ((λ o h. ground arith, (λ o h. ground arith, tt)), ((λ o h. ground arith, tt), (tt, tt)))

finds_menu : ui_get_obj table (b'm' ∷ b'e' ∷ b'n' ∷ b'u' ∷ []) ≡ some 12
unfolding ui_get_obj
finds_menu = refl

-- The flags of an object are the bits of a number, for one object.
abbrev flags : ObjFlags
flags = record {
  hidden = 1;
  clickable = 2;
  scrollable = 4;
  click_focusable = 8;
  scroll_on_focus = 16;
  scroll_chain = 32;
  press_lock = 64;
  overflow_visible = 128;
}

-- What is set, as a function of the object and the flag.
abbrev Shown : Type 0
Shown = ℕ → ℕ → Bool

abbrev put : Bool → ℕ → ℕ → Shown → Shown
put b o f s p g = if p == o && g == f then b else s p g

abbrev widgets : Widgets Shown
widgets = record {
  add_flag = put true;
  clear_flag = put false;
  add_state = λ o f s. s;
  clear_state = λ o f s. s;
  set_src = λ o t s. s;
  fade_in = λ o d e s. s;
  fade_out = λ o d e s. s;
  set_style_opa = λ o a s. s;
}

put-has : (b : Bool) (o f : ℕ) (s : Shown) → put b o f s o f ≡ b
put-has b o f s = rw ((==_iff o o).1 refl, (==_iff f f).1 refl) refl

abbrev nothing_set : Shown
nothing_set o f = false

abbrev menu : List ℕ
menu = codes "menu"

abbrev hidden : List ℕ
hidden = codes "LV_OBJ_FLAG_HIDDEN"

-- Labels with their texts, one for each object.
abbrev Texts : Type 0
Texts = ℕ → List ℕ

abbrev labels : Labels Texts
labels = record { get_text = λ o s. s o; set_text = λ o text s p. if p == o then text else s p }

labels-LabelLaws : LabelLaws labels
labels-LabelLaws = record {
  same = λ o text s. rw ((==_iff o o).1 refl) refl;
  other = λ o p text s apart. ground arith;
}

abbrev version_labels : VersionLabels
version_labels = record {
  boot_screen_version = 1;
  about = record { system_version = 2; app_version = 3; lvgl_version = 4 };
}

abbrev no_text : Texts
no_text o = []

abbrev long_version : List ℕ
long_version = replicate 40 b'1'

long_version-IsText : IsText long_version
long_version-IsText = ones 40
  where
    ones : (n : ℕ) → IsText (replicate n b'1')
    ones zero = tt
    ones (suc n) = (omega arith, ones n)

abbrev screens : ℕ → Option ℕ
screens n = some (n + 1000)

abbrev nowhere : Nav
nowhere = record { current_screen = negsuc 0; active = none }

abbrev a_tap : Gesture
a_tap = record { is_gesture = false; direction = left }

abbrev styles_table : List StyleEntry
styles_table =
    record { name = codes "flex_screen"; getter = flex_screen }
    ∷ record { name = codes "flex_screen_menu"; getter = flex_screen_menu }
    ∷ []

styles_table-HasStyles : HasStyles styles_table
unfolding ui_get_style
styles_table-HasStyles = record { screen = λ styles. refl; menu = λ styles. refl }

lvgl_set_rotation_menu_example :
    let d = lvgl_set_rotation styles_table 90 (
      style_ops styles_table
        (uses back_button ∷ rotates 270 ∷ [])
        (record { rotation = 0; styles = λ id. none })) in
    HasPaddings 24 44 (d.styles flex_screen) × HasPaddings 44 24 (d.styles flex_screen_menu)
lvgl_set_rotation_menu_example =
    lvgl_set_rotation_menu styles_table (uses back_button ∷ rotates 270 ∷ []) 0
      styles_table-HasStyles
