-- ===== src/Screen/Layout/AboutScreen/Rows.antt =====
-- The rows of the screen with the versions: part of `create_screen_about_screen` of
-- eez/src/ui/screens.c.
use hardware_os.Base.{none, some, [], ◌∷◌}
use hardware_os.Screen.Styles.{
  bg_opa, border_width, pad_bottom, pad_left, pad_right, pad_top, radius, number, flex_column_start,
  info_headline_label, info_content_label,
}
use hardware_os.Screen.Layout.Fields
use hardware_os.Screen.Layout.{
  Widget, widget, ◌▹◌, leaf, obj, label, px, pct, content, scrollable, set_pos, set_size, add_style,
  clear_flag, label_set_text, style,
}

abbrev pub system_version_container_widget : Widget
system_version_container_widget =
    widget obj (some Fields.system_version_container)
      (set_pos (px 0) (px 0)
        ∷ set_size (pct 100) content
        ∷ style pad_left (number 0)
        ∷ style pad_top (number 0)
        ∷ style pad_bottom (number 0)
        ∷ style bg_opa (number 0)
        ∷ style border_width (number 0)
        ∷ style radius (number 0)
        ∷ clear_flag (scrollable ∷ [])
        ∷ add_style flex_column_start
        ∷ style pad_right (number 10)
        ∷ [])
      (widget label none
          (set_pos (px 0) (px 0)
            ∷ set_size content content
            ∷ add_style info_headline_label
            ∷ label_set_text "System"
            ∷ [])
          leaf
        ▹ widget label (some Fields.system_version)
            (set_pos (px 0) (px 0)
              ∷ set_size (pct 100) content
              ∷ add_style info_content_label
              ∷ label_set_text ""
              ∷ [])
            leaf
        ▹ leaf)

abbrev pub app_version_container_widget : Widget
app_version_container_widget =
    widget obj (some Fields.app_version_container)
      (set_pos (px 0) (px 0)
        ∷ set_size (pct 100) content
        ∷ style pad_left (number 0)
        ∷ style pad_top (number 0)
        ∷ style pad_bottom (number 0)
        ∷ style bg_opa (number 0)
        ∷ style border_width (number 0)
        ∷ style radius (number 0)
        ∷ clear_flag (scrollable ∷ [])
        ∷ add_style flex_column_start
        ∷ style pad_right (number 10)
        ∷ [])
      (widget label none
          (set_pos (px 0) (px 0)
            ∷ set_size content content
            ∷ add_style info_headline_label
            ∷ label_set_text "Application"
            ∷ [])
          leaf
        ▹ widget label (some Fields.app_version)
            (set_pos (px 0) (px 0)
              ∷ set_size (pct 100) content
              ∷ add_style info_content_label
              ∷ label_set_text ""
              ∷ [])
            leaf
        ▹ leaf)

abbrev pub build_branch_container_widget : Widget
build_branch_container_widget =
    widget obj (some Fields.build_branch_container)
      (set_pos (px 0) (px 0)
        ∷ set_size (pct 100) content
        ∷ style pad_left (number 0)
        ∷ style pad_top (number 0)
        ∷ style pad_bottom (number 0)
        ∷ style bg_opa (number 0)
        ∷ style border_width (number 0)
        ∷ style radius (number 0)
        ∷ clear_flag (scrollable ∷ [])
        ∷ add_style flex_column_start
        ∷ style pad_right (number 10)
        ∷ [])
      (widget label none
          (set_pos (px 0) (px 0)
            ∷ set_size content content
            ∷ add_style info_headline_label
            ∷ label_set_text "App Branch"
            ∷ [])
          leaf
        ▹ widget label (some Fields.build_branch)
            (set_pos (px 0) (px 0)
              ∷ set_size (pct 100) content
              ∷ add_style info_content_label
              ∷ label_set_text "0.0.1"
              ∷ [])
            leaf
        ▹ leaf)

abbrev pub build_date_container_widget : Widget
build_date_container_widget =
    widget obj (some Fields.build_date_container)
      (set_pos (px 0) (px 0)
        ∷ set_size (pct 100) content
        ∷ style pad_left (number 0)
        ∷ style pad_top (number 0)
        ∷ style pad_bottom (number 0)
        ∷ style bg_opa (number 0)
        ∷ style border_width (number 0)
        ∷ style radius (number 0)
        ∷ clear_flag (scrollable ∷ [])
        ∷ add_style flex_column_start
        ∷ style pad_right (number 10)
        ∷ [])
      (widget label none
          (set_pos (px 0) (px 0)
            ∷ set_size content content
            ∷ add_style info_headline_label
            ∷ label_set_text "App Build Date"
            ∷ [])
          leaf
        ▹ widget label (some Fields.build_date)
            (set_pos (px 0) (px 0)
              ∷ set_size (pct 100) content
              ∷ add_style info_content_label
              ∷ label_set_text "0.0.1"
              ∷ [])
            leaf
        ▹ leaf)

abbrev pub golang_version_container_widget : Widget
golang_version_container_widget =
    widget obj (some Fields.golang_version_container)
      (set_pos (px 0) (px 0)
        ∷ set_size (pct 100) content
        ∷ style pad_left (number 0)
        ∷ style pad_top (number 0)
        ∷ style pad_bottom (number 0)
        ∷ style bg_opa (number 0)
        ∷ style border_width (number 0)
        ∷ style radius (number 0)
        ∷ clear_flag (scrollable ∷ [])
        ∷ add_style flex_column_start
        ∷ style pad_right (number 10)
        ∷ [])
      (widget label none
          (set_pos (px 0) (px 0)
            ∷ set_size content content
            ∷ add_style info_headline_label
            ∷ label_set_text "Golang"
            ∷ [])
          leaf
        ▹ widget label (some Fields.golang_version)
            (set_pos (px 0) (px 0)
              ∷ set_size (pct 100) content
              ∷ add_style info_content_label
              ∷ label_set_text "0.0.1"
              ∷ [])
            leaf
        ▹ leaf)

abbrev pub lvgl_version_container_widget : Widget
lvgl_version_container_widget =
    widget obj (some Fields.lvgl_version_container)
      (set_pos (px 0) (px 0)
        ∷ set_size (pct 100) content
        ∷ style pad_left (number 0)
        ∷ style pad_top (number 0)
        ∷ style pad_bottom (number 0)
        ∷ style bg_opa (number 0)
        ∷ style border_width (number 0)
        ∷ style radius (number 0)
        ∷ clear_flag (scrollable ∷ [])
        ∷ add_style flex_column_start
        ∷ style pad_right (number 10)
        ∷ [])
      (widget label none
          (set_pos (px 0) (px 0)
            ∷ set_size content content
            ∷ add_style info_headline_label
            ∷ label_set_text "LVGL"
            ∷ [])
          leaf
        ▹ widget label (some Fields.lvgl_version)
            (set_pos (px 0) (px 0)
              ∷ set_size (pct 100) content
              ∷ add_style info_content_label
              ∷ label_set_text ""
              ∷ [])
            leaf
        ▹ leaf)

abbrev pub kernel_version_container_widget : Widget
kernel_version_container_widget =
    widget obj (some Fields.kernel_version_container)
      (set_pos (px 0) (px 0)
        ∷ set_size (pct 100) content
        ∷ style pad_left (number 0)
        ∷ style pad_top (number 0)
        ∷ style pad_bottom (number 0)
        ∷ style bg_opa (number 0)
        ∷ style border_width (number 0)
        ∷ style radius (number 0)
        ∷ clear_flag (scrollable ∷ [])
        ∷ add_style flex_column_start
        ∷ style pad_right (number 10)
        ∷ [])
      (widget label none
          (set_pos (px 0) (px 0)
            ∷ set_size content content
            ∷ add_style info_headline_label
            ∷ label_set_text "Linux Kernel"
            ∷ [])
          leaf
        ▹ widget label (some Fields.kernel_version)
            (set_pos (px 0) (px 0)
              ∷ set_size (pct 100) content
              ∷ add_style info_content_label
              ∷ label_set_text "0.0.1"
              ∷ [])
            leaf
        ▹ leaf)
