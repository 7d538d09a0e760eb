-- ===== src/Screen/Layout/MenuAdvancedScreen.antt =====
-- `create_screen_menu_advanced_screen` of eez/src/ui/screens.c.
use hardware_os.Base.{none, some, [], ◌∷◌}
use hardware_os.Ui.Navigation.{
  switch_to_menu, switch_to_reset_config, switch_to_dhcpc, switch_to_reboot,
  menu_advanced_screen_gesture,
}
use hardware_os.Screen.Styles.{
  bg_color, bg_opa, border_width, pad_bottom, pad_left, pad_right, pad_top, radius, colour, number,
  flex_start, flow_row_space_between, flex_column_start, flex_screen_menu, header_link, menu_button,
  menu_button_label, back_button,
}
use hardware_os.Screen.Layout.Fields
use hardware_os.Screen.Layout.{
  Widget, widget, ◌▹◌, leaf, obj, image, label, button, px, minus, pct, content, hidden, scrollable,
  snappable, gesture, clicked, pressed, navigates, reset_config, set_pos, set_size, add_style,
  add_flag, clear_flag, add_event_cb, set_scroll_dir, set_scroll_snap_x, set_scrollbar_mode,
  image_set_src, label_set_text, style, boxed,
}

abbrev pub menu_header_container_1_widget : Widget
menu_header_container_1_widget =
    widget obj (some Fields.menu_header_container_1)
      (set_pos (px 0) (px 0)
        ∷ set_size (pct 100) content
        ∷ style pad_left (number 0)
        ∷ style pad_top (number 0)
        ∷ style pad_bottom (number 0)
        ∷ style bg_opa (number 0)
        ∷ style border_width (number 0)
        ∷ style radius (number 0)
        ∷ add_style flow_row_space_between
        ∷ style pad_right (number 4)
        ∷ [])
      (widget button none
          (set_pos (px 0) (px 0)
            ∷ set_size (px 32) (px 32)
            ∷ add_event_cb (navigates switch_to_menu) clicked
            ∷ add_style back_button
            ∷ [])
          (widget image none
              (set_pos (minus 1) (px 2)
                ∷ set_size content content
                ∷ image_set_src "img_back_caret"
                ∷ [])
              leaf
            ▹ leaf)
        ▹ widget label none
            (set_pos (pct 0) (pct 0)
              ∷ set_size content content
              ∷ add_style header_link
              ∷ label_set_text "Advanced"
              ∷ [])
            leaf
        ▹ leaf)

abbrev pub menu_btn_advanced_developer_mode_widget : Widget
menu_btn_advanced_developer_mode_widget =
    widget button (some Fields.menu_btn_advanced_developer_mode)
      (set_pos (px 0) (px 0)
        ∷ set_size (pct 100) (px 50)
        ∷ add_event_cb reset_config pressed
        ∷ add_flag (hidden ∷ [])
        ∷ add_style menu_button
        ∷ [])
      (widget label none
          (set_pos (px 0) (px 0)
            ∷ set_size content content
            ∷ add_style menu_button_label
            ∷ label_set_text "Developer Mode"
            ∷ [])
          leaf
        ▹ leaf)

abbrev pub menu_btn_advanced_reboot_widget : Widget
menu_btn_advanced_reboot_widget =
    widget button (some Fields.menu_btn_advanced_reboot)
      (set_pos (px 0) (px 0)
        ∷ set_size (pct 100) (px 50)
        ∷ add_event_cb (navigates switch_to_reboot) pressed
        ∷ clear_flag (snappable ∷ [])
        ∷ add_style menu_button
        ∷ [])
      (widget label none
          (set_pos (px 0) (px 0)
            ∷ set_size content content
            ∷ add_style menu_button_label
            ∷ label_set_text "Reboot Device"
            ∷ [])
          leaf
        ▹ leaf)

abbrev pub menu_btn_advanced_reset_config_widget : Widget
menu_btn_advanced_reset_config_widget =
    widget button (some Fields.menu_btn_advanced_reset_config)
      (set_pos (px 0) (px 0)
        ∷ set_size (pct 100) (px 50)
        ∷ add_event_cb (navigates switch_to_reset_config) pressed
        ∷ clear_flag (snappable ∷ [])
        ∷ add_style menu_button
        ∷ style bg_color (colour 4292617766)
        ∷ style bg_opa (number 255)
        ∷ [])
      (widget label none
          (set_pos (px 0) (px 0)
            ∷ set_size content content
            ∷ add_style menu_button_label
            ∷ label_set_text "Reset Configuration"
            ∷ [])
          leaf
        ▹ leaf)

abbrev pub menu_items_container_1_list : Widget
menu_items_container_1_list =
    widget obj none
      (set_pos (px 0) (px 0)
        ∷ set_size (pct 100) content
        ∷ style pad_left (number 0)
        ∷ style pad_top (number 0)
        ∷ style pad_bottom (number 0)
        ∷ style bg_opa (number 0)
        ∷ style border_width (number 0)
        ∷ style radius (number 0)
        ∷ clear_flag (scrollable ∷ [])
        ∷ add_style flex_column_start
        ∷ style pad_right (number 10)
        ∷ [])
      (menu_btn_advanced_developer_mode_widget
        ▹ widget button (some Fields.menu_btn_advanced_usb_emulation)
            (set_pos (px 0) (px 0)
              ∷ set_size (pct 100) (px 50)
              ∷ add_flag (hidden ∷ [])
              ∷ add_style menu_button
              ∷ [])
            (widget label none
                (set_pos (px 0) (px 0)
                  ∷ set_size content content
                  ∷ add_style menu_button_label
                  ∷ label_set_text "USB Emulation"
                  ∷ [])
                leaf
              ▹ leaf)
        ▹ menu_btn_advanced_reboot_widget
        ▹ widget button (some Fields.menu_btn_dhcp_client)
            (set_pos (px 0) (px 0)
              ∷ set_size (pct 100) (px 50)
              ∷ add_event_cb (navigates switch_to_dhcpc) pressed
              ∷ clear_flag (snappable ∷ [])
              ∷ add_style menu_button
              ∷ [])
            (widget label none
                (set_pos (px 0) (px 0)
                  ∷ set_size content content
                  ∷ add_style menu_button_label
                  ∷ label_set_text "DHCP Client"
                  ∷ [])
                leaf
              ▹ leaf)
        ▹ menu_btn_advanced_reset_config_widget
        ▹ leaf)

abbrev pub menu_advanced_screen_frame : Widget
menu_advanced_screen_frame =
    widget obj none
      (set_pos (px 0) (px 0)
        ∷ set_size (pct 100) (pct 100)
        ∷ boxed 0 0 0 0 0 (clear_flag (scrollable ∷ []) ∷ add_style flex_start ∷ []))
      (menu_header_container_1_widget
        ▹ widget obj (some Fields.menu_items_container_1)
            (set_pos (px 0) (px 0)
              ∷ set_size (pct 100) (pct 80)
              ∷ style pad_left (number 0)
              ∷ style pad_top (number 0)
              ∷ style pad_bottom (number 0)
              ∷ style bg_opa (number 0)
              ∷ style border_width (number 0)
              ∷ style radius (number 0)
              ∷ set_scrollbar_mode "LV_SCROLLBAR_MODE_AUTO"
              ∷ set_scroll_dir "LV_DIR_VER"
              ∷ set_scroll_snap_x "LV_SCROLL_SNAP_START"
              ∷ add_style flex_column_start
              ∷ style pad_right (number 4)
              ∷ [])
            (menu_items_container_1_list ▹ leaf)
        ▹ leaf)

abbrev pub menu_advanced_screen_layout : Widget
menu_advanced_screen_layout =
    widget obj (some Fields.menu_advanced_screen)
      (set_pos (px 0) (px 0)
        ∷ set_size (px 300) (px 240)
        ∷ add_event_cb (navigates menu_advanced_screen_gesture) gesture
        ∷ add_style flex_screen_menu
        ∷ [])
      (menu_advanced_screen_frame ▹ leaf)
