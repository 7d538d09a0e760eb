-- ===== src/Screen/Layout/MenuNetworkScreen.antt =====
-- `create_screen_menu_network_screen` of eez/src/ui/screens.c.
use hardware_os.Base.{none, some, [], ◌∷◌}
use hardware_os.Ui.Navigation.{switch_to_menu, menu_advanced_screen_gesture}
use hardware_os.Screen.Styles.{
  bg_opa, border_width, pad_bottom, pad_left, pad_right, pad_top, radius, number, flex_start,
  flow_row_space_between, flex_column_start, flex_screen_menu, header_link, menu_button,
  menu_button_label, back_button,
}
use hardware_os.Screen.Layout.Fields
use hardware_os.Screen.Layout.{
  Widget, widget, ◌▹◌, leaf, obj, image, label, button, px, minus, pct, content, scrollable,
  snappable, gesture, clicked, navigates, set_pos, set_size, add_style, clear_flag, add_event_cb,
  set_scroll_dir, set_scroll_snap_x, set_scrollbar_mode, image_set_src, label_set_text, style,
  boxed,
}

abbrev pub menu_header_container_2_widget : Widget
menu_header_container_2_widget =
    widget obj (some Fields.menu_header_container_2)
      (set_pos (px 0) (px 0)
        ∷ set_size (pct 100) content
        ∷ style pad_left (number 0)
        ∷ style pad_top (number 0)
        ∷ style pad_bottom (number 0)
        ∷ style bg_opa (number 0)
        ∷ style border_width (number 0)
        ∷ style radius (number 0)
        ∷ add_style flow_row_space_between
        ∷ style pad_right (number 4)
        ∷ [])
      (widget button none
          (set_pos (px 0) (px 0)
            ∷ set_size (px 32) (px 32)
            ∷ add_event_cb (navigates switch_to_menu) clicked
            ∷ add_style back_button
            ∷ [])
          (widget image none
              (set_pos (minus 1) (px 2)
                ∷ set_size content content
                ∷ image_set_src "img_back_caret"
                ∷ [])
              leaf
            ▹ leaf)
        ▹ widget label none
            (set_pos (pct 0) (pct 0)
              ∷ set_size content content
              ∷ add_style header_link
              ∷ label_set_text "Network"
              ∷ [])
            leaf
        ▹ leaf)

abbrev pub menu_items_container_2_list : Widget
menu_items_container_2_list =
    widget obj none
      (set_pos (px 0) (px 0)
        ∷ set_size (pct 100) content
        ∷ style pad_left (number 0)
        ∷ style pad_top (number 0)
        ∷ style pad_bottom (number 0)
        ∷ style bg_opa (number 0)
        ∷ style border_width (number 0)
        ∷ style radius (number 0)
        ∷ clear_flag (scrollable ∷ [])
        ∷ add_style flex_column_start
        ∷ style pad_right (number 10)
        ∷ [])
      (widget button (some Fields.menu_btn_network_ipv4)
          (set_pos (px 0) (px 0) ∷ set_size (pct 100) (px 50) ∷ add_style menu_button ∷ [])
          (widget label none
              (set_pos (px 0) (px 0)
                ∷ set_size content content
                ∷ add_style menu_button_label
                ∷ label_set_text "IPv4 Info"
                ∷ [])
              leaf
            ▹ leaf)
        ▹ widget button (some Fields.menu_btn_network_ipv6)
            (set_pos (px 0) (px 0) ∷ set_size (pct 100) (px 50) ∷ add_style menu_button ∷ [])
            (widget label none
                (set_pos (px 0) (px 0)
                  ∷ set_size content content
                  ∷ add_style menu_button_label
                  ∷ label_set_text "IPv6 Info"
                  ∷ [])
                leaf
              ▹ leaf)
        ▹ widget button (some Fields.menu_btn_network_lldp)
            (set_pos (px 0) (px 0)
              ∷ set_size (pct 100) (px 50)
              ∷ clear_flag (snappable ∷ [])
              ∷ add_style menu_button
              ∷ [])
            (widget label none
                (set_pos (px 0) (px 0)
                  ∷ set_size content content
                  ∷ add_style menu_button_label
                  ∷ label_set_text "LLDP Neighbours"
                  ∷ [])
                leaf
              ▹ leaf)
        ▹ leaf)

abbrev pub menu_network_screen_frame : Widget
menu_network_screen_frame =
    widget obj none
      (set_pos (px 0) (px 0)
        ∷ set_size (pct 100) (pct 100)
        ∷ boxed 0 0 0 0 0 (clear_flag (scrollable ∷ []) ∷ add_style flex_start ∷ []))
      (menu_header_container_2_widget
        ▹ widget obj (some Fields.menu_items_container_2)
            (set_pos (px 0) (px 0)
              ∷ set_size (pct 100) (pct 80)
              ∷ style pad_left (number 0)
              ∷ style pad_top (number 0)
              ∷ style pad_bottom (number 0)
              ∷ style bg_opa (number 0)
              ∷ style border_width (number 0)
              ∷ style radius (number 0)
              ∷ set_scrollbar_mode "LV_SCROLLBAR_MODE_AUTO"
              ∷ set_scroll_dir "LV_DIR_VER"
              ∷ set_scroll_snap_x "LV_SCROLL_SNAP_START"
              ∷ add_style flex_column_start
              ∷ style pad_right (number 4)
              ∷ [])
            (menu_items_container_2_list ▹ leaf)
        ▹ leaf)

abbrev pub menu_network_screen_layout : Widget
menu_network_screen_layout =
    widget obj (some Fields.menu_network_screen)
      (set_pos (px 0) (px 0)
        ∷ set_size (px 300) (px 240)
        ∷ add_event_cb (navigates menu_advanced_screen_gesture) gesture
        ∷ add_style flex_screen_menu
        ∷ [])
      (menu_network_screen_frame ▹ leaf)
