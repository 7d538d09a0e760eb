-- ===== src/Screen/Styles.antt =====
-- The styles of the screens, eez/src/ui/styles.c: what each is set to when it is first used. A
-- constant of the graphics library and a font are their names, and a style is what was set in it, the
-- last setting first.
pub mod Getters
pub mod Rotation
pub mod Uses
use hardware_os.Base.{ℕ, zero, suc, ◌==◌, Option, none, some, List, [], ◌∷◌, if◌then◌else◌}
use Prim.Native.String.{String}

pub data StyleProperty : Type 0 where
  align bg_color bg_opa border_width flex_cross_place flex_flow flex_main_place flex_track_place
        layout margin_top pad_bottom pad_left pad_right pad_row pad_top radius shadow_width
        text_align text_color text_font text_opa transform_height transform_width :
      StyleProperty

pub data StyleValue : Type 0 where
  constant : String → StyleValue
  font : String → StyleValue
  colour : ℕ → StyleValue
  number : ℕ → StyleValue

abbrev pub Style : Type 0
Style = List (StyleProperty × StyleValue)

-- The calls of `lv_style_set_…`, in order.
abbrev pub sets : List (StyleProperty × StyleValue) → Style → Style
sets [] style = style
sets (x ∷ xs) style = sets xs (x ∷ style)

abbrev init_style_flex_column_space_between : Style → Style
init_style_flex_column_space_between style =
    sets
      ((flex_flow, constant "LV_FLEX_FLOW_COLUMN")
        ∷ (flex_main_place, constant "LV_FLEX_ALIGN_SPACE_BETWEEN")
        ∷ (flex_cross_place, constant "LV_FLEX_ALIGN_START")
        ∷ (flex_track_place, constant "LV_FLEX_ALIGN_START")
        ∷ (text_align, constant "LV_TEXT_ALIGN_CENTER")
        ∷ [])
      style

abbrev init_style_flex_center : Style → Style
init_style_flex_center style =
    sets
      ((layout, constant "LV_LAYOUT_FLEX")
        ∷ (flex_flow, constant "LV_FLEX_FLOW_COLUMN")
        ∷ (flex_main_place, constant "LV_FLEX_ALIGN_CENTER")
        ∷ (flex_cross_place, constant "LV_FLEX_ALIGN_CENTER")
        ∷ (flex_track_place, constant "LV_FLEX_ALIGN_CENTER")
        ∷ [])
      style

abbrev init_style_flex_start : Style → Style
init_style_flex_start style =
    sets
      ((layout, constant "LV_LAYOUT_FLEX")
        ∷ (flex_flow, constant "LV_FLEX_FLOW_COLUMN")
        ∷ (flex_main_place, constant "LV_FLEX_ALIGN_START")
        ∷ (flex_cross_place, constant "LV_FLEX_ALIGN_START")
        ∷ (flex_track_place, constant "LV_FLEX_ALIGN_START")
        ∷ [])
      (init_style_flex_center style)

abbrev init_style_flow_row_space_between : Style → Style
init_style_flow_row_space_between style =
    sets
      ((layout, constant "LV_LAYOUT_FLEX")
        ∷ (flex_flow, constant "LV_FLEX_FLOW_ROW")
        ∷ (flex_main_place, constant "LV_FLEX_ALIGN_SPACE_BETWEEN")
        ∷ (flex_cross_place, constant "LV_FLEX_ALIGN_CENTER")
        ∷ (flex_track_place, constant "LV_FLEX_ALIGN_START")
        ∷ [])
      (init_style_flex_center style)

abbrev init_style_flow_row_start_center : Style → Style
init_style_flow_row_start_center style =
    sets
      ((layout, constant "LV_LAYOUT_FLEX")
        ∷ (flex_flow, constant "LV_FLEX_FLOW_ROW")
        ∷ (flex_main_place, constant "LV_FLEX_ALIGN_START")
        ∷ (flex_cross_place, constant "LV_FLEX_ALIGN_CENTER")
        ∷ (flex_track_place, constant "LV_FLEX_ALIGN_START")
        ∷ [])
      (init_style_flow_row_space_between style)

abbrev init_style_flex_column_start : Style → Style
init_style_flex_column_start style =
    sets
      ((layout, constant "LV_LAYOUT_FLEX")
        ∷ (flex_flow, constant "LV_FLEX_FLOW_COLUMN")
        ∷ (flex_main_place, constant "LV_FLEX_ALIGN_START")
        ∷ (flex_cross_place, constant "LV_FLEX_ALIGN_START")
        ∷ (flex_track_place, constant "LV_FLEX_ALIGN_START")
        ∷ [])
      (init_style_flow_row_space_between style)

abbrev init_style_flex_screen : Style → Style
init_style_flex_screen style =
    sets
      ((pad_top, number 24)
        ∷ (pad_bottom, number 24)
        ∷ (pad_left, number 44)
        ∷ (pad_right, number 24)
        ∷ (pad_row, number 16)
        ∷ (layout, constant "LV_LAYOUT_FLEX")
        ∷ (flex_flow, constant "LV_FLEX_FLOW_COLUMN")
        ∷ (flex_main_place, constant "LV_FLEX_ALIGN_START")
        ∷ (flex_cross_place, constant "LV_FLEX_ALIGN_START")
        ∷ (flex_track_place, constant "LV_FLEX_ALIGN_START")
        ∷ (bg_color, colour 4278190080)
        ∷ [])
      style

abbrev init_style_flex_screen_menu : Style → Style
init_style_flex_screen_menu style = sets [] (init_style_flex_screen style)

abbrev init_style_label_font16 : Style → Style
init_style_label_font16 style =
    sets
      ((text_align, constant "LV_TEXT_ALIGN_CENTER")
        ∷ (text_font, font "ui_font_font_book16")
        ∷ (text_color, colour 4294967295)
        ∷ [])
      style

abbrev init_style_label_font_bold30 : Style → Style
init_style_label_font_bold30 style =
    sets ((text_font, font "ui_font_font_bold30") ∷ []) (init_style_label_font16 style)

abbrev init_style_header_link : Style → Style
init_style_header_link style =
    sets
      ((text_color, colour 4280110808)
        ∷ (text_opa, number 255)
        ∷ (text_font, font "ui_font_font_book20")
        ∷ (text_align, constant "LV_TEXT_ALIGN_CENTER")
        ∷ [])
      (init_style_label_font16 style)

abbrev init_style_menu_button : Style → Style
init_style_menu_button style =
    sets
      ((radius, number 8)
        ∷ (bg_color, colour 4280690214)
        ∷ (bg_opa, number 255)
        ∷ (pad_top, number 20)
        ∷ (pad_bottom, number 20)
        ∷ (pad_left, number 16)
        ∷ (pad_right, number 0)
        ∷ (shadow_width, number 0)
        ∷ [])
      style

abbrev init_style_menu_button_label : Style → Style
init_style_menu_button_label style =
    sets
      ((align, constant "LV_ALIGN_LEFT_MID")
        ∷ (text_font, font "ui_font_font_book20")
        ∷ (text_color, colour 4294967295)
        ∷ (text_opa, number 255)
        ∷ [])
      style

abbrev init_style_info_headline_label : Style → Style
init_style_info_headline_label style =
    sets ((text_color, colour 4287931320) ∷ (text_font, font "ui_font_font_book20") ∷ []) style

abbrev init_style_info_content_label : Style → Style
init_style_info_content_label style =
    sets ((text_font, font "ui_font_font_book18") ∷ (text_color, colour 4294967295) ∷ []) style

abbrev init_style_back_button : Style → Style
init_style_back_button style =
    sets
      ((bg_color, colour 4280690214)
        ∷ (bg_opa, number 255)
        ∷ (radius, number 10000)
        ∷ (shadow_width, number 0)
        ∷ [])
      style

-- The styles, in the order of the tables of `add_style` and `remove_style`.
pub data StyleId : Type 0 where
  flex_column_space_between flex_center flex_start flow_row_space_between flow_row_start_center
        flex_column_start flex_screen flex_screen_menu label_font16 label_font_bold30 header_link
        menu_button menu_button_label info_headline_label info_content_label back_button :
      StyleId

abbrev pub init_style : StyleId → Style → Style
init_style flex_column_space_between style = init_style_flex_column_space_between style
init_style flex_center style = init_style_flex_center style
init_style flex_start style = init_style_flex_start style
init_style flow_row_space_between style = init_style_flow_row_space_between style
init_style flow_row_start_center style = init_style_flow_row_start_center style
init_style flex_column_start style = init_style_flex_column_start style
init_style flex_screen style = init_style_flex_screen style
init_style flex_screen_menu style = init_style_flex_screen_menu style
init_style label_font16 style = init_style_label_font16 style
init_style label_font_bold30 style = init_style_label_font_bold30 style
init_style header_link style = init_style_header_link style
init_style menu_button style = init_style_menu_button style
init_style menu_button_label style = init_style_menu_button_label style
init_style info_headline_label style = init_style_info_headline_label style
init_style info_content_label style = init_style_info_content_label style
init_style back_button style = init_style_back_button style

abbrev pub style_index : StyleId → ℕ
style_index flex_column_space_between = 0
style_index flex_center = 1
style_index flex_start = 2
style_index flow_row_space_between = 3
style_index flow_row_start_center = 4
style_index flex_column_start = 5
style_index flex_screen = 6
style_index flex_screen_menu = 7
style_index label_font16 = 8
style_index label_font_bold30 = 9
style_index header_link = 10
style_index menu_button = 11
style_index menu_button_label = 12
style_index info_headline_label = 13
style_index info_content_label = 14
style_index back_button = 15
