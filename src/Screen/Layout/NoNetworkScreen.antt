-- ===== src/Screen/Layout/NoNetworkScreen.antt =====
-- `create_screen_no_network_screen` of eez/src/ui/screens.c.
use hardware_os.Base.{none, some, [], ◌∷◌}
use hardware_os.Ui.Navigation.{switch_to_menu, home_screen_gesture}
use hardware_os.Screen.Styles.{
  flex_cross_place, flex_main_place, flex_track_place, margin_top, transform_height,
  transform_width, constant, number, flex_start, flow_row_space_between, flex_column_start,
  flex_screen, label_font16, label_font_bold30,
}
use hardware_os.Screen.Layout.Fields
use hardware_os.Screen.Layout.{
  Widget, widget, ◌▹◌, leaf, obj, image, label, px, pct, content, main_checked, clickable,
  long_pressed, gesture, navigates, set_pos, set_size, set_style, add_style, clear_flag,
  add_event_cb, set_scrollbar_mode, label_set_long_mode, image_set_src, label_set_text, style,
  boxed,
}

abbrev pub no_network_content_container_widget : Widget
no_network_content_container_widget =
    widget obj (some Fields.no_network_content_container)
      (set_pos (px 0) (px 20)
        ∷ set_size (pct 100) (pct 75)
        ∷ boxed 0 0 0 0 0 (
            clear_flag (clickable ∷ [])
            ∷ set_scrollbar_mode "LV_SCROLLBAR_MODE_OFF"
            ∷ add_style flex_column_start
            ∷ style flex_main_place (constant "LV_FLEX_ALIGN_CENTER")
            ∷ style flex_cross_place (constant "LV_FLEX_ALIGN_CENTER")
            ∷ style flex_track_place (constant "LV_FLEX_ALIGN_CENTER")
            ∷ set_style margin_top (number 200) main_checked
            ∷ []))
      (widget image none
          (set_pos (px 227) (px 50) ∷ set_size content content ∷ image_set_src "img_ethernet" ∷ [])
          leaf
        ▹ widget label (some Fields.no_network_title)
            (set_pos (pct 0) (pct 0)
              ∷ set_size content content
              ∷ add_style label_font_bold30
              ∷ label_set_text "No Network"
              ∷ [])
            leaf
        ▹ widget label (some Fields.home_info_ipv6_addr_1)
            (set_pos (pct 0) (pct 0)
              ∷ set_size content content
              ∷ label_set_long_mode "LV_LABEL_LONG_DOT"
              ∷ add_style label_font16
              ∷ label_set_text "Connect Ethernet cable"
              ∷ [])
            leaf
        ▹ leaf)

abbrev pub no_network_screen_frame : Widget
no_network_screen_frame =
    widget obj none
      (set_pos (px 0) (px 0)
        ∷ set_size (pct 100) (pct 100)
        ∷ boxed 0 0 0 0 0 (
            clear_flag (clickable ∷ [])
            ∷ set_scrollbar_mode "LV_SCROLLBAR_MODE_OFF"
            ∷ add_style flex_start
            ∷ []))
      (widget obj (some Fields.no_network_header_container)
          (set_pos (px 0) (px 0)
            ∷ set_size (pct 100) content
            ∷ boxed 0 0 0 0 0 (clear_flag (clickable ∷ []) ∷ add_style flow_row_space_between ∷ []))
          (widget image (some Fields.no_network_header_logo)
              (set_pos (px 0) (px 0)
                ∷ set_size content content
                ∷ image_set_src "img_jetkvm"
                ∷ style transform_width (number 174)
                ∷ style transform_height (number 49)
                ∷ [])
              leaf
            ▹ leaf)
        ▹ no_network_content_container_widget
        ▹ leaf)

abbrev pub no_network_screen_layout : Widget
no_network_screen_layout =
    widget obj (some Fields.no_network_screen)
      (set_pos (px 0) (px 0)
        ∷ set_size (px 300) (px 240)
        ∷ add_event_cb (navigates switch_to_menu) long_pressed
        ∷ add_event_cb (navigates home_screen_gesture) gesture
        ∷ add_style flex_screen
        ∷ [])
      (no_network_screen_frame ▹ leaf)
