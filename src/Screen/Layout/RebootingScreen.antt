-- ===== src/Screen/Layout/RebootingScreen.antt =====
-- `create_screen_rebooting_screen` of eez/src/ui/screens.c.
use hardware_os.Base.{none, some, [], ◌∷◌}
use hardware_os.Screen.Styles.{
  bg_color, text_align, text_font, transform_height, transform_width, constant, font, colour,
  number, flex_column_space_between, flex_center, flex_start, label_font16,
}
use hardware_os.Screen.Layout.Fields
use hardware_os.Screen.Layout.{
  Widget, widget, ◌▹◌, leaf, obj, image, label, px, pct, content, set_pos, set_size, add_style,
  image_set_src, label_set_text, style, boxed,
}

abbrev pub rebooting_screen_frame : Widget
rebooting_screen_frame =
    widget obj none
      (set_pos (px 0) (px 0)
        ∷ set_size (pct 100) (pct 100)
        ∷ boxed 0 0 0 0 0 (add_style flex_start ∷ []))
      (widget obj none
          (set_pos (px 0) (px 0)
            ∷ set_size (pct 100) (pct 100)
            ∷ boxed 0 0 0 0 0 (add_style flex_center ∷ []))
          (widget image (some Fields.reboot_in_progress_logo)
              (set_pos (px 0) (px 0)
                ∷ set_size content content
                ∷ image_set_src "img_boot_logo_2"
                ∷ style transform_width (number 174)
                ∷ style transform_height (number 49)
                ∷ [])
              leaf
            ▹ widget label (some Fields.reboot_in_progress_label)
                (set_pos (pct 0) (pct 0)
                  ∷ set_size content content
                  ∷ add_style label_font16
                  ∷ style text_align (constant "LV_TEXT_ALIGN_CENTER")
                  ∷ style text_font (font "ui_font_font_book16")
                  ∷ label_set_text "Rebooting device ..."
                  ∷ [])
                leaf
            ▹ leaf)
        ▹ leaf)

abbrev pub rebooting_screen_layout : Widget
rebooting_screen_layout =
    widget obj (some Fields.rebooting_screen)
      (set_pos (px 0) (px 0)
        ∷ set_size (px 300) (px 240)
        ∷ add_style flex_column_space_between
        ∷ style bg_color (colour 4278190080)
        ∷ [])
      (rebooting_screen_frame ▹ leaf)
