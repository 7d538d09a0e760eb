-- ===== src/Screen/Layout/SwitchDhcpClientScreen.antt =====
-- `create_screen_switch_dhcp_client_screen` of eez/src/ui/screens.c.
use hardware_os.Base.{none, some, [], ◌∷◌}
use hardware_os.Ui.Navigation.{switch_to_menu, about_screen_gesture}
use hardware_os.Screen.Styles.{
  align, bg_color, bg_opa, border_width, flex_cross_place, flex_main_place, flex_track_place,
  pad_bottom, pad_left, pad_right, pad_top, radius, text_align, text_font, constant, font, colour,
  number, flex_start, flow_row_space_between, flex_column_start, flex_screen_menu, header_link,
  info_content_label, back_button,
}
use hardware_os.Screen.Layout.Fields
use hardware_os.Screen.Layout.{
  Widget, widget, ◌▹◌, leaf, obj, image, label, button, spinner, px, minus, pct, content, hidden,
  clickable, scrollable, gesture, clicked, pressed, pressing, released, navigates, dhcpc, set_pos,
  set_size, add_style, add_flag, clear_flag, add_event_cb, set_scroll_dir, set_scroll_snap_x,
  set_scrollbar_mode, image_set_src, label_set_text, spinner_set_anim_params, style, boxed,
}

abbrev pub dhcp_client_header_widget : Widget
dhcp_client_header_widget =
    widget obj (some Fields.dhcp_client_header)
      (set_pos (px 0) (px 0)
        ∷ set_size (pct 100) content
        ∷ style pad_left (number 0)
        ∷ style pad_top (number 0)
        ∷ style pad_bottom (number 0)
        ∷ style bg_opa (number 0)
        ∷ style border_width (number 0)
        ∷ style radius (number 0)
        ∷ add_style flow_row_space_between
        ∷ style pad_right (number 4)
        ∷ [])
      (widget button none
          (set_pos (px 0) (px 0)
            ∷ set_size (px 32) (px 32)
            ∷ add_event_cb (navigates switch_to_menu) clicked
            ∷ add_style back_button
            ∷ [])
          (widget image none
              (set_pos (minus 1) (px 2)
                ∷ set_size content content
                ∷ image_set_src "img_back_caret"
                ∷ [])
              leaf
            ▹ leaf)
        ▹ widget label none
            (set_pos (pct 0) (pct 0)
              ∷ set_size content content
              ∷ add_style header_link
              ∷ label_set_text "DHCP Client"
              ∷ [])
            leaf
        ▹ leaf)

abbrev pub dhcp_client_button_widget : Widget
dhcp_client_button_widget =
    widget obj (some Fields.dhcp_client_button)
      (set_pos (px 0) (px 0)
        ∷ set_size (pct 100) content
        ∷ boxed 0 0 0 0 0 (clear_flag (scrollable ∷ []) ∷ add_style flex_column_start ∷ []))
      (widget button (some Fields.obj2)
          (set_pos (px 0) (px 0)
            ∷ set_size (pct 100) (px 50)
            ∷ add_event_cb dhcpc pressed
            ∷ add_event_cb dhcpc pressing
            ∷ add_event_cb dhcpc released
            ∷ style bg_color (colour 4292617766)
            ∷ style text_align (constant "LV_TEXT_ALIGN_LEFT")
            ∷ style pad_right (number 13)
            ∷ [])
          (widget label (some Fields.dhcp_client_change_label)
              (set_pos (px 0) (px 0)
                ∷ set_size content content
                ∷ style align (constant "LV_ALIGN_CENTER")
                ∷ style text_align (constant "LV_TEXT_ALIGN_LEFT")
                ∷ label_set_text "Switch to udhcpc"
                ∷ [])
              leaf
            ▹ leaf)
        ▹ leaf)

abbrev pub dhcp_client_container_list : Widget
dhcp_client_container_list =
    widget obj none
      (set_pos (px 0) (px 0)
        ∷ set_size (pct 100) content
        ∷ style pad_left (number 0)
        ∷ style pad_top (number 0)
        ∷ style pad_bottom (number 0)
        ∷ style bg_opa (number 0)
        ∷ style border_width (number 0)
        ∷ style radius (number 0)
        ∷ clear_flag (scrollable ∷ [])
        ∷ add_style flex_column_start
        ∷ style pad_right (number 10)
        ∷ [])
      (widget obj (some Fields.dhcp_client_label_container)
          (set_pos (px 0) (px 0)
            ∷ set_size (pct 100) content
            ∷ style bg_opa (number 0)
            ∷ style border_width (number 0)
            ∷ style radius (number 0)
            ∷ clear_flag (scrollable ∷ [])
            ∷ add_style flex_column_start
            ∷ style pad_right (number 10)
            ∷ style pad_left (number 10)
            ∷ style pad_top (number 10)
            ∷ style pad_bottom (number 10)
            ∷ [])
          (widget label (some Fields.dhcpc_label)
              (set_pos (px 0) (px 0)
                ∷ set_size (pct 100) content
                ∷ add_style info_content_label
                ∷ style text_font (font "ui_font_font_book20")
                ∷ label_set_text "Press and hold for\n5 seconds"
                ∷ [])
              leaf
            ▹ leaf)
        ▹ widget obj (some Fields.dhcp_client_spinner)
            (set_pos (px 0) (px 0)
              ∷ set_size (pct 100) content
              ∷ boxed 0 0 0 0 0 (
                  add_flag (hidden ∷ [])
                  ∷ clear_flag (clickable ∷ scrollable ∷ [])
                  ∷ add_style flex_column_start
                  ∷ style flex_main_place (constant "LV_FLEX_ALIGN_CENTER")
                  ∷ style flex_cross_place (constant "LV_FLEX_ALIGN_CENTER")
                  ∷ style flex_track_place (constant "LV_FLEX_ALIGN_CENTER")
                  ∷ []))
            (widget spinner none
                (set_pos (px 0) (px 0)
                  ∷ set_size (px 80) (px 80)
                  ∷ spinner_set_anim_params 1000 60
                  ∷ [])
                leaf
              ▹ leaf)
        ▹ dhcp_client_button_widget
        ▹ leaf)

abbrev pub switch_dhcp_client_screen_frame : Widget
switch_dhcp_client_screen_frame =
    widget obj none
      (set_pos (px 0) (px 0)
        ∷ set_size (pct 100) (pct 100)
        ∷ boxed 0 0 0 0 0 (clear_flag (scrollable ∷ []) ∷ add_style flex_start ∷ []))
      (dhcp_client_header_widget
        ▹ widget obj (some Fields.dhcp_client_container)
            (set_pos (px 0) (px 0)
              ∷ set_size (pct 100) (pct 80)
              ∷ style pad_left (number 0)
              ∷ style pad_top (number 0)
              ∷ style pad_bottom (number 0)
              ∷ style bg_opa (number 0)
              ∷ style border_width (number 0)
              ∷ style radius (number 0)
              ∷ set_scrollbar_mode "LV_SCROLLBAR_MODE_AUTO"
              ∷ set_scroll_dir "LV_DIR_VER"
              ∷ set_scroll_snap_x "LV_SCROLL_SNAP_START"
              ∷ add_style flex_column_start
              ∷ style pad_right (number 4)
              ∷ [])
            (dhcp_client_container_list ▹ leaf)
        ▹ leaf)

abbrev pub switch_dhcp_client_screen_layout : Widget
switch_dhcp_client_screen_layout =
    widget obj (some Fields.switch_dhcp_client_screen)
      (set_pos (px 0) (px 0)
        ∷ set_size (px 300) (px 240)
        ∷ add_event_cb (navigates about_screen_gesture) gesture
        ∷ add_style flex_screen_menu
        ∷ [])
      (switch_dhcp_client_screen_frame ▹ leaf)
