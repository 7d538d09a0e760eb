-- ===== src/Screen/Styles/Getters.antt =====
-- The static pointers of the functions `get_style_…` of eez/src/ui/styles.c, which initialize a style
-- when it is first asked for.
use hardware_os.Base.{ℕ, ◌==◌, Option, none, some, [], if◌then◌else◌}
use hardware_os.Screen.Styles.{
  Style, init_style, StyleId, style_index, flex_column_space_between, flex_center, flex_start,
  flow_row_space_between, flow_row_start_center, flex_column_start, flex_screen, flex_screen_menu,
  label_font16, label_font_bold30, header_link, menu_button, menu_button_label, info_headline_label,
  info_content_label, back_button,
}

-- The static pointers of the functions `get_style_…`, `none` for NULL.
abbrev pub Styles : Type 0
Styles = StyleId → Option Style

abbrev pub put_style : StyleId → Style → Styles → Styles
put_style id style styles other =
    if style_index other == style_index id then some style else styles other

init_if : Option Style → StyleId → Styles → Styles
init_if none id styles = put_style id (init_style id []) styles
init_if (some style) id styles = styles

-- The pointers after the call of `get_style_…` for a style; it returns that of the style.
unfoldable pub get_style : StyleId → Styles → Styles
unfolding init_if
get_style id styles = init_if (styles id) id styles

abbrev pub get_style_flex_column_space_between : Styles → Styles
get_style_flex_column_space_between styles = get_style flex_column_space_between styles

abbrev pub get_style_flex_center : Styles → Styles
get_style_flex_center styles = get_style flex_center styles

abbrev pub get_style_flex_start : Styles → Styles
get_style_flex_start styles = get_style flex_start styles

abbrev pub get_style_flow_row_space_between : Styles → Styles
get_style_flow_row_space_between styles = get_style flow_row_space_between styles

abbrev pub get_style_flow_row_start_center : Styles → Styles
get_style_flow_row_start_center styles = get_style flow_row_start_center styles

abbrev pub get_style_flex_column_start : Styles → Styles
get_style_flex_column_start styles = get_style flex_column_start styles

abbrev pub get_style_flex_screen : Styles → Styles
get_style_flex_screen styles = get_style flex_screen styles

abbrev pub get_style_flex_screen_menu : Styles → Styles
get_style_flex_screen_menu styles = get_style flex_screen_menu styles

abbrev pub get_style_label_font16 : Styles → Styles
get_style_label_font16 styles = get_style label_font16 styles

abbrev pub get_style_label_font_bold30 : Styles → Styles
get_style_label_font_bold30 styles = get_style label_font_bold30 styles

abbrev pub get_style_header_link : Styles → Styles
get_style_header_link styles = get_style header_link styles

abbrev pub get_style_menu_button : Styles → Styles
get_style_menu_button styles = get_style menu_button styles

abbrev pub get_style_menu_button_label : Styles → Styles
get_style_menu_button_label styles = get_style menu_button_label styles

abbrev pub get_style_info_headline_label : Styles → Styles
get_style_info_headline_label styles = get_style info_headline_label styles

abbrev pub get_style_info_content_label : Styles → Styles
get_style_info_content_label styles = get_style info_content_label styles

abbrev pub get_style_back_button : Styles → Styles
get_style_back_button styles = get_style back_button styles

-- The calls of the graphics library, over its state: an object and a style.
pub record StyleLib (S : Type 0) : Type 0 where
  pub obj_add_style : ℕ → StyleId → S → S
  pub obj_remove_style : ℕ → StyleId → S → S
