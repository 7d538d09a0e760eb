-- ===== src/Screen/Layout.antt =====
-- The screens as eez/src/ui/screens.c builds them: the calls of the graphics library on each widget,
-- in order, and the widgets inside it. A function `create_screen_…` is one such tree, for the nested
-- blocks of the function are nested in the same way; `Build` runs it.
pub mod AboutScreen
pub mod BootScreen
pub mod Fields
pub mod HomeScreen
pub mod MenuAdvancedScreen
pub mod MenuNetworkScreen
pub mod MenuScreen
pub mod NoNetworkScreen
pub mod RebootScreen
pub mod RebootingScreen
pub mod ResetConfigScreen
pub mod StatusScreen
pub mod SwitchDhcpClientScreen
use hardware_os.Base.{ℕ, Option, List, [], ◌∷◌}
use Prim.Native.String.{String}
use hardware_os.Ui.Navigation.{Action}
use hardware_os.Screen.Styles.{
  StyleId, StyleProperty, StyleValue, number, pad_left, pad_top, pad_right, pad_bottom, bg_opa,
  border_width, radius,
}

-- `lv_obj_create`, `lv_image_create` and so on.
pub data Kind : Type 0 where
  obj image label button spinner : Kind

-- A position or a size: pixels, at least 0 or below it, `LV_PCT(…)` and LV_SIZE_CONTENT.
pub data Length : Type 0 where
  px minus pct : ℕ → Length
  content : Length

-- `LV_PART_MAIN | LV_STATE_DEFAULT` and so on.
pub data Selector : Type 0 where
  main_default main_checked scrollbar_default : Selector

-- LV_OBJ_FLAG_HIDDEN and so on.
pub data Flag : Type 0 where
  hidden clickable scrollable click_focusable snappable checkable overflow_visible : Flag

-- LV_EVENT_LONG_PRESSED and so on.
pub data EventCode : Type 0 where
  long_pressed gesture clicked pressed pressing released : EventCode

-- The functions `action_…`: those that navigate, and those of the buttons to press and hold.
pub data Handler : Type 0 where
  navigates : Action → Handler
  reset_config reboot dhcpc : Handler

-- The calls on an object. The user data of a callback is NULL in each of them.
pub data Call : Type 0 where
  set_pos set_size : Length → Length → Call
  set_style : StyleProperty → StyleValue → Selector → Call
  add_style : StyleId → Call
  add_flag clear_flag : List Flag → Call
  add_event_cb : Handler → EventCode → Call
  set_scroll_dir set_scroll_snap_x set_scrollbar_mode label_set_long_mode : String → Call
  image_set_src : String → Call
  label_set_text : String → Call
  spinner_set_anim_params : ℕ → ℕ → Call

-- A widget has the field of `objects` that is set to it, if one is, the calls on it and the widgets
-- that are created in it.
mutual
  pub data Widget : Type 0 where
    widget : Kind → Option ℕ → List Call → Widgets → Widget

  pub data Widgets : Type 0 where
    leaf : Widgets
    ◌▹◌ : Widget → Widgets → Widgets

infixr 5 ◌▹◌
-- `lv_obj_set_style_…` with `LV_PART_MAIN | LV_STATE_DEFAULT`.
abbrev pub style : StyleProperty → StyleValue → Call
style property value = set_style property value main_default

-- The seven calls that most containers start with, before the rest.
abbrev pub boxed : ℕ → ℕ → ℕ → ℕ → ℕ → List Call → List Call
boxed left top right bottom opa rest =
    style pad_left (number left)
    ∷ style pad_top (number top)
    ∷ style pad_right (number right)
    ∷ style pad_bottom (number bottom)
    ∷ style bg_opa (number opa)
    ∷ style border_width (number 0)
    ∷ style radius (number 0)
    ∷ rest
