-- ===== src/Screen/Styles/Uses.antt =====
-- The functions of eez/src/ui/styles.c that add a style to an object or remove it, and their tables.
use hardware_os.Base.{ℕ, zero, suc, ◌≡◌, refl, Option, none, some, List, [], ◌∷◌}
use hardware_os.Screen.Styles.{
  StyleId, style_index, flex_column_space_between, flex_center, flex_start, flow_row_space_between,
  flow_row_start_center, flex_column_start, flex_screen, flex_screen_menu, label_font16,
  label_font_bold30, header_link, menu_button, menu_button_label, info_headline_label,
  info_content_label, back_button,
}
use hardware_os.Screen.Styles.Getters.{
  Styles, StyleLib, get_style, get_style_flex_column_space_between, get_style_flex_center,
  get_style_flex_start, get_style_flow_row_space_between, get_style_flow_row_start_center,
  get_style_flex_column_start, get_style_flex_screen, get_style_flex_screen_menu,
  get_style_label_font16, get_style_label_font_bold30, get_style_header_link, get_style_menu_button,
  get_style_menu_button_label, get_style_info_headline_label, get_style_info_content_label,
  get_style_back_button,
}

module _ {S : Type 0} (lv : StyleLib S) where
  abbrev pub add_style_flex_column_space_between : ℕ → Styles × S → Styles × S
  add_style_flex_column_space_between obj (styles, s) =
      (get_style_flex_column_space_between styles, lv.obj_add_style obj flex_column_space_between s)

  abbrev pub add_style_flex_center : ℕ → Styles × S → Styles × S
  add_style_flex_center obj (styles, s) =
      (get_style_flex_center styles, lv.obj_add_style obj flex_center s)

  abbrev pub add_style_flex_start : ℕ → Styles × S → Styles × S
  add_style_flex_start obj (styles, s) =
      (get_style_flex_start styles, lv.obj_add_style obj flex_start s)

  abbrev pub add_style_flow_row_space_between : ℕ → Styles × S → Styles × S
  add_style_flow_row_space_between obj (styles, s) =
      (get_style_flow_row_space_between styles, lv.obj_add_style obj flow_row_space_between s)

  abbrev pub add_style_flow_row_start_center : ℕ → Styles × S → Styles × S
  add_style_flow_row_start_center obj (styles, s) =
      (get_style_flow_row_start_center styles, lv.obj_add_style obj flow_row_start_center s)

  abbrev pub add_style_flex_column_start : ℕ → Styles × S → Styles × S
  add_style_flex_column_start obj (styles, s) =
      (get_style_flex_column_start styles, lv.obj_add_style obj flex_column_start s)

  abbrev pub add_style_flex_screen : ℕ → Styles × S → Styles × S
  add_style_flex_screen obj (styles, s) =
      (get_style_flex_screen styles, lv.obj_add_style obj flex_screen s)

  abbrev pub add_style_flex_screen_menu : ℕ → Styles × S → Styles × S
  add_style_flex_screen_menu obj (styles, s) =
      (get_style_flex_screen_menu styles, lv.obj_add_style obj flex_screen_menu s)

  abbrev pub add_style_label_font16 : ℕ → Styles × S → Styles × S
  add_style_label_font16 obj (styles, s) =
      (get_style_label_font16 styles, lv.obj_add_style obj label_font16 s)

  abbrev pub add_style_label_font_bold30 : ℕ → Styles × S → Styles × S
  add_style_label_font_bold30 obj (styles, s) =
      (get_style_label_font_bold30 styles, lv.obj_add_style obj label_font_bold30 s)

  abbrev pub add_style_header_link : ℕ → Styles × S → Styles × S
  add_style_header_link obj (styles, s) =
      (get_style_header_link styles, lv.obj_add_style obj header_link s)

  abbrev pub add_style_menu_button : ℕ → Styles × S → Styles × S
  add_style_menu_button obj (styles, s) =
      (get_style_menu_button styles, lv.obj_add_style obj menu_button s)

  abbrev pub add_style_menu_button_label : ℕ → Styles × S → Styles × S
  add_style_menu_button_label obj (styles, s) =
      (get_style_menu_button_label styles, lv.obj_add_style obj menu_button_label s)

  abbrev pub add_style_info_headline_label : ℕ → Styles × S → Styles × S
  add_style_info_headline_label obj (styles, s) =
      (get_style_info_headline_label styles, lv.obj_add_style obj info_headline_label s)

  abbrev pub add_style_info_content_label : ℕ → Styles × S → Styles × S
  add_style_info_content_label obj (styles, s) =
      (get_style_info_content_label styles, lv.obj_add_style obj info_content_label s)

  abbrev pub add_style_back_button : ℕ → Styles × S → Styles × S
  add_style_back_button obj (styles, s) =
      (get_style_back_button styles, lv.obj_add_style obj back_button s)

  abbrev pub remove_style_flex_column_space_between : ℕ → Styles × S → Styles × S
  remove_style_flex_column_space_between obj (styles, s) = (
    get_style_flex_column_space_between styles,
    lv.obj_remove_style obj flex_column_space_between s,
  )

  abbrev pub remove_style_flex_center : ℕ → Styles × S → Styles × S
  remove_style_flex_center obj (styles, s) =
      (get_style_flex_center styles, lv.obj_remove_style obj flex_center s)

  abbrev pub remove_style_flex_start : ℕ → Styles × S → Styles × S
  remove_style_flex_start obj (styles, s) =
      (get_style_flex_start styles, lv.obj_remove_style obj flex_start s)

  abbrev pub remove_style_flow_row_space_between : ℕ → Styles × S → Styles × S
  remove_style_flow_row_space_between obj (styles, s) =
      (get_style_flow_row_space_between styles, lv.obj_remove_style obj flow_row_space_between s)

  abbrev pub remove_style_flow_row_start_center : ℕ → Styles × S → Styles × S
  remove_style_flow_row_start_center obj (styles, s) =
      (get_style_flow_row_start_center styles, lv.obj_remove_style obj flow_row_start_center s)

  abbrev pub remove_style_flex_column_start : ℕ → Styles × S → Styles × S
  remove_style_flex_column_start obj (styles, s) =
      (get_style_flex_column_start styles, lv.obj_remove_style obj flex_column_start s)

  abbrev pub remove_style_flex_screen : ℕ → Styles × S → Styles × S
  remove_style_flex_screen obj (styles, s) =
      (get_style_flex_screen styles, lv.obj_remove_style obj flex_screen s)

  abbrev pub remove_style_flex_screen_menu : ℕ → Styles × S → Styles × S
  remove_style_flex_screen_menu obj (styles, s) =
      (get_style_flex_screen_menu styles, lv.obj_remove_style obj flex_screen_menu s)

  abbrev pub remove_style_label_font16 : ℕ → Styles × S → Styles × S
  remove_style_label_font16 obj (styles, s) =
      (get_style_label_font16 styles, lv.obj_remove_style obj label_font16 s)

  abbrev pub remove_style_label_font_bold30 : ℕ → Styles × S → Styles × S
  remove_style_label_font_bold30 obj (styles, s) =
      (get_style_label_font_bold30 styles, lv.obj_remove_style obj label_font_bold30 s)

  abbrev pub remove_style_header_link : ℕ → Styles × S → Styles × S
  remove_style_header_link obj (styles, s) =
      (get_style_header_link styles, lv.obj_remove_style obj header_link s)

  abbrev pub remove_style_menu_button : ℕ → Styles × S → Styles × S
  remove_style_menu_button obj (styles, s) =
      (get_style_menu_button styles, lv.obj_remove_style obj menu_button s)

  abbrev pub remove_style_menu_button_label : ℕ → Styles × S → Styles × S
  remove_style_menu_button_label obj (styles, s) =
      (get_style_menu_button_label styles, lv.obj_remove_style obj menu_button_label s)

  abbrev pub remove_style_info_headline_label : ℕ → Styles × S → Styles × S
  remove_style_info_headline_label obj (styles, s) =
      (get_style_info_headline_label styles, lv.obj_remove_style obj info_headline_label s)

  abbrev pub remove_style_info_content_label : ℕ → Styles × S → Styles × S
  remove_style_info_content_label obj (styles, s) =
      (get_style_info_content_label styles, lv.obj_remove_style obj info_content_label s)

  abbrev pub remove_style_back_button : ℕ → Styles × S → Styles × S
  remove_style_back_button obj (styles, s) =
      (get_style_back_button styles, lv.obj_remove_style obj back_button s)

  abbrev add_style_funcs : List (ℕ → Styles × S → Styles × S)
  add_style_funcs =
      add_style_flex_column_space_between ∷ add_style_flex_center ∷ add_style_flex_start
      ∷ add_style_flow_row_space_between ∷ add_style_flow_row_start_center
      ∷ add_style_flex_column_start ∷ add_style_flex_screen ∷ add_style_flex_screen_menu
      ∷ add_style_label_font16 ∷ add_style_label_font_bold30 ∷ add_style_header_link
      ∷ add_style_menu_button ∷ add_style_menu_button_label ∷ add_style_info_headline_label
      ∷ add_style_info_content_label ∷ add_style_back_button ∷ []

  abbrev remove_style_funcs : List (ℕ → Styles × S → Styles × S)
  remove_style_funcs =
      remove_style_flex_column_space_between ∷ remove_style_flex_center ∷ remove_style_flex_start
      ∷ remove_style_flow_row_space_between ∷ remove_style_flow_row_start_center
      ∷ remove_style_flex_column_start ∷ remove_style_flex_screen ∷ remove_style_flex_screen_menu
      ∷ remove_style_label_font16 ∷ remove_style_label_font_bold30 ∷ remove_style_header_link
      ∷ remove_style_menu_button ∷ remove_style_menu_button_label ∷ remove_style_info_headline_label
      ∷ remove_style_info_content_label ∷ remove_style_back_button ∷ []

  call_at : List (ℕ → Styles × S → Styles × S) → ℕ → ℕ → Styles × S → Option (Styles × S)
  call_at [] index obj t = none
  call_at (f ∷ fs) zero obj t = some (f obj t)
  call_at (f ∷ fs) (suc index) obj t = call_at fs index obj t

  -- `none` is a call through a pointer outside the table.
  unfoldable pub add_style : ℕ → ℕ → Styles × S → Option (Styles × S)
  unfolding call_at
  add_style obj index t = call_at add_style_funcs index obj t

  unfoldable pub remove_style : ℕ → ℕ → Styles × S → Option (Styles × S)
  unfolding call_at
  remove_style obj index t = call_at remove_style_funcs index obj t

  -- The tables have the styles in the order of their numbers: the function for a style makes sure that
  -- it is initialized, and adds it to the object or removes it.
  add_style-style_index :
      (id : StyleId) (obj : ℕ) (styles : Styles) (s : S)
      → (add_style obj (style_index id) (styles, s)
          ≡ some (get_style id styles, lv.obj_add_style obj id s))
        × (remove_style obj (style_index id) (styles, s)
            ≡ some (get_style id styles, lv.obj_remove_style obj id s))
  unfolding add_style remove_style
  add_style-style_index flex_column_space_between obj styles s = (refl, refl)
  add_style-style_index flex_center obj styles s = (refl, refl)
  add_style-style_index flex_start obj styles s = (refl, refl)
  add_style-style_index flow_row_space_between obj styles s = (refl, refl)
  add_style-style_index flow_row_start_center obj styles s = (refl, refl)
  add_style-style_index flex_column_start obj styles s = (refl, refl)
  add_style-style_index flex_screen obj styles s = (refl, refl)
  add_style-style_index flex_screen_menu obj styles s = (refl, refl)
  add_style-style_index label_font16 obj styles s = (refl, refl)
  add_style-style_index label_font_bold30 obj styles s = (refl, refl)
  add_style-style_index header_link obj styles s = (refl, refl)
  add_style-style_index menu_button obj styles s = (refl, refl)
  add_style-style_index menu_button_label obj styles s = (refl, refl)
  add_style-style_index info_headline_label obj styles s = (refl, refl)
  add_style-style_index info_content_label obj styles s = (refl, refl)
  add_style-style_index back_button obj styles s = (refl, refl)
