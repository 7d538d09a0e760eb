-- ===== src/Screen/Layout/StatusScreen.antt =====
-- `create_screen_status_screen` of eez/src/ui/screens.c.
use hardware_os.Base.{none, some, [], ◌∷◌}
use hardware_os.Ui.Navigation.{switch_to_menu, about_screen_gesture}
use hardware_os.Screen.Styles.{
  bg_opa, border_width, pad_bottom, pad_left, pad_right, pad_top, radius, number, flex_start,
  flow_row_space_between, flex_column_start, flex_screen_menu, header_link, info_headline_label,
  info_content_label, back_button,
}
use hardware_os.Screen.Layout.Fields
use hardware_os.Screen.Layout.{
  Widget, widget, ◌▹◌, leaf, obj, image, label, button, px, minus, pct, content, hidden, scrollable,
  gesture, clicked, navigates, set_pos, set_size, add_style, add_flag, clear_flag, add_event_cb,
  set_scroll_dir, set_scroll_snap_x, set_scrollbar_mode, image_set_src, label_set_text, style,
  boxed,
}

abbrev pub status_header_container_widget : Widget
status_header_container_widget =
    widget obj (some Fields.status_header_container)
      (set_pos (px 0) (px 0)
        ∷ set_size (pct 100) content
        ∷ style pad_left (number 0)
        ∷ style pad_top (number 0)
        ∷ style pad_bottom (number 0)
        ∷ style bg_opa (number 0)
        ∷ style border_width (number 0)
        ∷ style radius (number 0)
        ∷ add_style flow_row_space_between
        ∷ style pad_right (number 4)
        ∷ [])
      (widget button none
          (set_pos (px 0) (px 0)
            ∷ set_size (px 32) (px 32)
            ∷ add_event_cb (navigates switch_to_menu) clicked
            ∷ add_style back_button
            ∷ [])
          (widget image none
              (set_pos (minus 1) (px 2)
                ∷ set_size content content
                ∷ image_set_src "img_back_caret"
                ∷ [])
              leaf
            ▹ leaf)
        ▹ widget label none
            (set_pos (pct 0) (pct 0)
              ∷ set_size content content
              ∷ add_style header_link
              ∷ label_set_text "Status"
              ∷ [])
            leaf
        ▹ leaf)

abbrev pub device_id_container_widget : Widget
device_id_container_widget =
    widget obj (some Fields.device_id_container)
      (set_pos (px 0) (px 0)
        ∷ set_size (pct 100) content
        ∷ style pad_left (number 0)
        ∷ style pad_top (number 0)
        ∷ style pad_bottom (number 0)
        ∷ style bg_opa (number 0)
        ∷ style border_width (number 0)
        ∷ style radius (number 0)
        ∷ clear_flag (scrollable ∷ [])
        ∷ add_style flex_column_start
        ∷ style pad_right (number 10)
        ∷ [])
      (widget label none
          (set_pos (px 0) (px 0)
            ∷ set_size content content
            ∷ add_style info_headline_label
            ∷ label_set_text "Device ID"
            ∷ [])
          leaf
        ▹ widget label (some Fields.device_id)
            (set_pos (px 0) (px 0)
              ∷ set_size (pct 100) content
              ∷ add_style info_content_label
              ∷ label_set_text "64238c05ececc831"
              ∷ [])
            leaf
        ▹ leaf)

abbrev pub cloud_account_id_container_widget : Widget
cloud_account_id_container_widget =
    widget obj (some Fields.cloud_account_id_container)
      (set_pos (px 0) (px 0)
        ∷ set_size (pct 100) content
        ∷ style pad_left (number 0)
        ∷ style pad_top (number 0)
        ∷ style pad_bottom (number 0)
        ∷ style bg_opa (number 0)
        ∷ style border_width (number 0)
        ∷ style radius (number 0)
        ∷ add_flag (hidden ∷ [])
        ∷ clear_flag (scrollable ∷ [])
        ∷ add_style flex_column_start
        ∷ style pad_right (number 10)
        ∷ [])
      (widget label none
          (set_pos (px 0) (px 0)
            ∷ set_size content content
            ∷ add_style info_headline_label
            ∷ label_set_text "Cloud Account ID"
            ∷ [])
          leaf
        ▹ widget label (some Fields.app_version_1)
            (set_pos (px 0) (px 0)
              ∷ set_size (pct 100) content
              ∷ add_style info_content_label
              ∷ label_set_text "12387612876312673dd"
              ∷ [])
            leaf
        ▹ leaf)

abbrev pub status_items_container_list : Widget
status_items_container_list =
    widget obj none
      (set_pos (px 0) (px 0)
        ∷ set_size (pct 100) content
        ∷ style pad_left (number 0)
        ∷ style pad_top (number 0)
        ∷ style pad_bottom (number 0)
        ∷ style bg_opa (number 0)
        ∷ style border_width (number 0)
        ∷ style radius (number 0)
        ∷ clear_flag (scrollable ∷ [])
        ∷ add_style flex_column_start
        ∷ style pad_right (number 10)
        ∷ [])
      (device_id_container_widget
        ▹ cloud_account_id_container_widget
        ▹ widget obj (some Fields.cloud_domain_container)
            (set_pos (px 0) (px 0)
              ∷ set_size (pct 100) content
              ∷ style pad_left (number 0)
              ∷ style pad_top (number 0)
              ∷ style pad_bottom (number 0)
              ∷ style bg_opa (number 0)
              ∷ style border_width (number 0)
              ∷ style radius (number 0)
              ∷ clear_flag (scrollable ∷ [])
              ∷ add_style flex_column_start
              ∷ style pad_right (number 10)
              ∷ [])
            (widget label none
                (set_pos (px 0) (px 0)
                  ∷ set_size content content
                  ∷ add_style info_headline_label
                  ∷ label_set_text "Cloud Endpoint"
                  ∷ [])
                leaf
              ▹ widget label (some Fields.cloud_domain)
                  (set_pos (px 0) (px 0)
                    ∷ set_size (pct 100) content
                    ∷ add_style info_content_label
                    ∷ label_set_text "api.jetkvm.com"
                    ∷ [])
                  leaf
              ▹ leaf)
        ▹ leaf)

abbrev pub status_screen_frame : Widget
status_screen_frame =
    widget obj none
      (set_pos (px 0) (px 0)
        ∷ set_size (pct 100) (pct 100)
        ∷ boxed 0 0 0 0 0 (clear_flag (scrollable ∷ []) ∷ add_style flex_start ∷ []))
      (status_header_container_widget
        ▹ widget obj (some Fields.status_items_container)
            (set_pos (px 0) (px 0)
              ∷ set_size (pct 100) (pct 80)
              ∷ style pad_left (number 0)
              ∷ style pad_top (number 0)
              ∷ style pad_bottom (number 0)
              ∷ style bg_opa (number 0)
              ∷ style border_width (number 0)
              ∷ style radius (number 0)
              ∷ set_scrollbar_mode "LV_SCROLLBAR_MODE_AUTO"
              ∷ set_scroll_dir "LV_DIR_VER"
              ∷ set_scroll_snap_x "LV_SCROLL_SNAP_START"
              ∷ add_style flex_column_start
              ∷ style pad_right (number 4)
              ∷ [])
            (status_items_container_list ▹ leaf)
        ▹ leaf)

abbrev pub status_screen_layout : Widget
status_screen_layout =
    widget obj (some Fields.status_screen)
      (set_pos (px 0) (px 0)
        ∷ set_size (px 300) (px 240)
        ∷ add_event_cb (navigates about_screen_gesture) gesture
        ∷ add_style flex_screen_menu
        ∷ [])
      (status_screen_frame ▹ leaf)
