-- ===== src/Screen/Layout/HomeScreen.antt =====
-- `create_screen_home_screen` of eez/src/ui/screens.c.
use hardware_os.Base.{none, some, [], ◌∷◌}
use hardware_os.Ui.Navigation.{switch_to_menu, home_screen_gesture}
use hardware_os.Screen.Styles.{
  bg_color, bg_opa, border_width, pad_bottom, pad_left, pad_right, pad_top, radius, text_align,
  text_color, transform_height, transform_width, constant, colour, number, flex_start,
  flow_row_space_between, flow_row_start_center, flex_column_start, flex_screen, label_font16,
  label_font_bold30,
}
use hardware_os.Screen.Layout.Fields
use hardware_os.Screen.Layout.{
  Widget, widget, ◌▹◌, leaf, obj, image, label, px, pct, content, main_checked, hidden, clickable,
  scrollable, click_focusable, checkable, long_pressed, gesture, navigates, set_pos, set_size,
  set_style, add_style, add_flag, clear_flag, add_event_cb, set_scrollbar_mode, label_set_long_mode,
  image_set_src, label_set_text, style, boxed,
}

abbrev pub home_header_container_widget : Widget
home_header_container_widget =
    widget obj (some Fields.home_header_container)
      (set_pos (px 0) (px 0)
        ∷ set_size (pct 100) content
        ∷ boxed 0 0 0 0 0 (clear_flag (clickable ∷ []) ∷ add_style flow_row_space_between ∷ []))
      (widget image (some Fields.home_header_logo)
          (set_pos (px 0) (px 0)
            ∷ set_size content content
            ∷ image_set_src "img_jetkvm"
            ∷ style transform_width (number 174)
            ∷ style transform_height (number 49)
            ∷ [])
          leaf
        ▹ widget obj none
            (set_pos (px 0) (px 0)
              ∷ set_size content content
              ∷ boxed 0 0 0 0 0
                  (clear_flag (clickable ∷ []) ∷ add_style flow_row_start_center ∷ []))
            (widget image (some Fields.cloud_status_icon)
                (set_pos (px 0) (px 0) ∷ set_size content content ∷ image_set_src "img_cloud" ∷ [])
                leaf
              ▹ widget label (some Fields.cloud_status_label)
                  (set_pos (pct 0) (pct 0)
                    ∷ set_size content content
                    ∷ add_style label_font16
                    ∷ label_set_text "-1 active"
                    ∷ [])
                  leaf
              ▹ leaf)
        ▹ leaf)

abbrev pub home_info_container_widget : Widget
home_info_container_widget =
    widget obj (some Fields.home_info_container)
      (set_pos (px 0) (px 0)
        ∷ set_size (pct 100) (pct 47)
        ∷ boxed 0 0 0 0 0 (
            clear_flag (clickable ∷ [])
            ∷ set_scrollbar_mode "LV_SCROLLBAR_MODE_OFF"
            ∷ add_style flex_column_start
            ∷ []))
      (widget label (some Fields.home_info_ipv4_addr)
          (set_pos (pct 0) (pct 0)
            ∷ set_size content content
            ∷ add_style label_font_bold30
            ∷ label_set_text "169.254.169.254"
            ∷ [])
          leaf
        ▹ widget label (some Fields.home_info_ipv6_addr)
            (set_pos (pct 0) (pct 0)
              ∷ set_size (pct 98) (px 17)
              ∷ label_set_long_mode "LV_LABEL_LONG_DOT"
              ∷ add_flag (hidden ∷ [])
              ∷ add_style label_font16
              ∷ style text_align (constant "LV_TEXT_ALIGN_LEFT")
              ∷ label_set_text "fe80::ffff:ffff:ffff:ffff:ffff:ffff:ffff:ffff"
              ∷ [])
            leaf
        ▹ widget label (some Fields.home_info_mac_addr)
            (set_pos (pct 0) (pct 0)
              ∷ set_size content content
              ∷ add_style label_font16
              ∷ label_set_text "01:23:45:67:89:ab"
              ∷ [])
            leaf
        ▹ leaf)

abbrev pub usb_status_widget : Widget
usb_status_widget =
    widget obj (some Fields.usb_status)
      (set_pos (px 0) (px 0)
        ∷ set_size (pct 50) content
        ∷ boxed 0 0 0 0 0 (clear_flag (clickable ∷ []) ∷ add_style flex_column_start ∷ []))
      (widget obj (some Fields.usb_indicator)
          (set_pos (px 0) (px 0)
            ∷ set_size content content
            ∷ boxed 0 0 0 0 0 (clear_flag (clickable ∷ []) ∷ add_style flow_row_start_center ∷ []))
          (widget image none
              (set_pos (px 0) (px 0) ∷ set_size content content ∷ image_set_src "img_usb" ∷ []) leaf
            ▹ widget label none
                (set_pos (pct 0) (pct 0)
                  ∷ set_size content content
                  ∷ add_style label_font16
                  ∷ label_set_text "USB"
                  ∷ [])
                leaf
            ▹ leaf)
        ▹ widget label (some Fields.usb_status_label)
            (set_pos (pct 0) (pct 0)
              ∷ set_size content content
              ∷ add_flag (checkable ∷ [])
              ∷ add_style label_font16
              ∷ style text_color (colour 4286611584)
              ∷ set_style text_color (colour 4280468830) main_checked
              ∷ label_set_text "Unknown"
              ∷ [])
            leaf
        ▹ leaf)

abbrev pub hdmi_status_widget : Widget
hdmi_status_widget =
    widget obj (some Fields.hdmi_status)
      (set_pos (px 0) (px 0)
        ∷ set_size (pct 50) content
        ∷ boxed 0 0 0 0 0 (clear_flag (clickable ∷ []) ∷ add_style flex_column_start ∷ []))
      (widget obj (some Fields.hdmi_indicator)
          (set_pos (px 0) (px 0)
            ∷ set_size content content
            ∷ boxed 0 0 0 0 0 (clear_flag (clickable ∷ []) ∷ add_style flow_row_start_center ∷ []))
          (widget image none
              (set_pos (px 0) (px 0) ∷ set_size content content ∷ image_set_src "img_hdmi" ∷ [])
              leaf
            ▹ widget label none
                (set_pos (pct 0) (pct 0)
                  ∷ set_size content content
                  ∷ add_style label_font16
                  ∷ label_set_text "HDMI"
                  ∷ [])
                leaf
            ▹ leaf)
        ▹ widget label (some Fields.hdmi_status_label)
            (set_pos (pct 0) (pct 0)
              ∷ set_size content content
              ∷ add_flag (checkable ∷ [])
              ∷ add_style label_font16
              ∷ set_style text_color (colour 4280468830) main_checked
              ∷ style text_color (colour 4286611584)
              ∷ label_set_text "Unknown"
              ∷ [])
            leaf
        ▹ leaf)

abbrev pub home_screen_frame : Widget
home_screen_frame =
    widget obj none
      (set_pos (px 0) (px 0)
        ∷ set_size (pct 100) (pct 100)
        ∷ boxed 0 0 0 0 0 (clear_flag (clickable ∷ []) ∷ add_style flex_start ∷ []))
      (home_header_container_widget
        ▹ home_info_container_widget
        ▹ widget obj (some Fields.divider)
            (set_pos (px 0) (px 0)
              ∷ set_size (pct 100) (px 1)
              ∷ style pad_left (number 0)
              ∷ style pad_top (number 0)
              ∷ style pad_right (number 0)
              ∷ style pad_bottom (number 0)
              ∷ style border_width (number 0)
              ∷ style radius (number 0)
              ∷ clear_flag (clickable ∷ click_focusable ∷ scrollable ∷ [])
              ∷ set_scrollbar_mode "LV_SCROLLBAR_MODE_OFF"
              ∷ add_style flex_column_start
              ∷ style bg_color (colour 4280690214)
              ∷ style bg_opa (number 255)
              ∷ [])
            leaf
        ▹ widget obj (some Fields.home_status_container)
            (set_pos (px 0) (px 0)
              ∷ set_size (pct 100) content
              ∷ boxed 0 0 0 0 0 (
                  clear_flag (clickable ∷ click_focusable ∷ scrollable ∷ [])
                  ∷ add_style flow_row_start_center
                  ∷ []))
            (usb_status_widget ▹ hdmi_status_widget ▹ leaf)
        ▹ leaf)

abbrev pub home_screen_layout : Widget
home_screen_layout =
    widget obj (some Fields.home_screen)
      (set_pos (px 0) (px 0)
        ∷ set_size (px 300) (px 240)
        ∷ add_event_cb (navigates switch_to_menu) long_pressed
        ∷ add_event_cb (navigates home_screen_gesture) gesture
        ∷ add_style flex_screen
        ∷ [])
      (home_screen_frame ▹ leaf)
