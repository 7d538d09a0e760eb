-- ===== src/Screen/Styles/Rotation.antt =====
-- The rotation of the display: `lvgl_set_rotation` and `ui_get_style` of cgo/screen.c. The table
-- `ui_styles` is generated by the build from styles.h, and is an argument.
pub mod Paddings
use hardware_os.Base.{
  ℕ, zero, suc, ◌==◌, ◌≡◌, ◌⊎◌, inl, inr, refl, Bool, true, false, ◌||◌, Option, none, some, List,
  [], ◌∷◌, if◌then◌else◌, Bool-cases, Option-cases, arith,
}
use hardware_os.Base.CString.{codes}
use hardware_os.Ui.Navigation.{bytes_eq}
use hardware_os.Screen.Styles.{
  Style, pad_left, pad_right, number, StyleId, flex_column_space_between, flex_center, flex_start,
  flow_row_space_between, flow_row_start_center, flex_column_start, flex_screen, flex_screen_menu,
  label_font16, label_font_bold30, header_link, menu_button, menu_button_label, info_headline_label,
  info_content_label, back_button, init_style, style_index,
}
use hardware_os.Screen.Styles.Getters.{Styles, put_style, get_style}

-- An entry of `ui_styles`: a name, and the style whose getter it holds.
pub record StyleEntry : Type 0 where
  pub name : List ℕ
  pub getter : StyleId

-- The pointers after the call, and the style that is found.
unfoldable pub ui_get_style : List StyleEntry → List ℕ → Styles → Styles × Option StyleId
ui_get_style [] name styles = (styles, none)
ui_get_style (e ∷ es) name styles =
    if bytes_eq e.name name
    then (get_style e.getter styles, some e.getter)
    else ui_get_style es name styles

-- `rotation` is what was last passed to `lv_display_set_rotation`.
pub record Display : Type 0 where
  pub rotation : ℕ
  pub styles : Styles

abbrev pub is_rotation : ℕ → Bool
is_rotation r = r == 0 || r == 90 || r == 180 || r == 270

-- Both paddings of a style that is initialized.
set_padding : ℕ → ℕ → StyleId → Option Style → Styles → Styles
set_padding left right id none styles = styles
set_padding left right id (some style) styles =
    put_style id ((pad_right, number right) ∷ (pad_left, number left) ∷ style) styles

pad_screen : ℕ → StyleId → Styles → Styles
unfolding set_padding
pad_screen r id styles =
    if r == 90
    then set_padding 24 44 id (styles id) styles
    else (if r == 270 then set_padding 44 24 id (styles id) styles else styles)

-- The last part, after both styles are looked up.
pad_found : ℕ → Option StyleId → Styles × Option StyleId → Styles
unfolding pad_screen
pad_found r none (styles, menu) = styles
pad_found r (some id) (styles, none) = styles
pad_found r (some id) (styles, some menu) = pad_screen r id styles

look_up_menu : List StyleEntry → ℕ → Styles × Option StyleId → Styles
unfolding pad_found
look_up_menu table r (styles, none) = styles
look_up_menu table r (styles, some id) =
    pad_found r (some id) (ui_get_style table (codes "flex_screen_menu") styles)

unfoldable pub lvgl_set_rotation : List StyleEntry → ℕ → Display → Display
unfolding look_up_menu
lvgl_set_rotation table r d = record {
  rotation = if is_rotation r then r else d.rotation;
  styles = look_up_menu table r (ui_get_style table (codes "flex_screen") d.styles);
}

-- The use of a style, by its getter, or a rotation.
pub data StyleOp : Type 0 where
  uses : StyleId → StyleOp
  rotates : ℕ → StyleOp

style_op : List StyleEntry → StyleOp → Display → Display
style_op table (uses id) d = record d { styles = get_style id d.styles }
style_op table (rotates r) d = lvgl_set_rotation table r d

unfoldable pub style_ops : List StyleEntry → List StyleOp → Display → Display
unfolding style_op
style_ops table [] d = d
style_ops table (op ∷ ops) d = style_ops table ops (style_op table op d)
