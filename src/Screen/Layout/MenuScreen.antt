-- ===== src/Screen/Layout/MenuScreen.antt =====
-- `create_screen_menu_screen` of eez/src/ui/screens.c.
use hardware_os.Base.{none, some, [], ◌∷◌}
use hardware_os.Ui.Navigation.{
  switch_to_advanced_menu, switch_to_status, switch_to_about, menu_screen_gesture,
}
use hardware_os.Screen.Styles.{
  bg_opa, border_width, pad_bottom, pad_left, pad_right, pad_top, radius, number, flex_start,
  flow_row_space_between, flex_column_start, flex_screen_menu, header_link, menu_button,
  menu_button_label, back_button,
}
use hardware_os.Screen.Layout.Fields
use hardware_os.Screen.Layout.{
  Widget, widget, ◌▹◌, leaf, obj, image, label, button, px, minus, pct, content, scrollbar_default,
  scrollable, snappable, overflow_visible, gesture, clicked, pressed, navigates, set_pos, set_size,
  set_style, add_style, add_flag, clear_flag, add_event_cb, set_scroll_dir, set_scroll_snap_x,
  set_scrollbar_mode, image_set_src, label_set_text, style, boxed,
}

abbrev pub menu_header_container_widget : Widget
menu_header_container_widget =
    widget obj (some Fields.menu_header_container)
      (set_pos (px 0) (px 0)
        ∷ set_size (pct 100) content
        ∷ style pad_left (number 0)
        ∷ style pad_top (number 0)
        ∷ style pad_bottom (number 0)
        ∷ style bg_opa (number 0)
        ∷ style border_width (number 0)
        ∷ style radius (number 0)
        ∷ add_style flow_row_space_between
        ∷ style pad_right (number 4)
        ∷ [])
      (widget button none
          (set_pos (px 0) (px 0)
            ∷ set_size (px 32) (px 32)
            ∷ add_event_cb (navigates menu_screen_gesture) pressed
            ∷ add_style back_button
            ∷ [])
          (widget image none
              (set_pos (minus 1) (px 2)
                ∷ set_size content content
                ∷ image_set_src "img_back_caret"
                ∷ [])
              leaf
            ▹ leaf)
        ▹ widget label none
            (set_pos (pct 0) (pct 0)
              ∷ set_size content content
              ∷ add_style header_link
              ∷ label_set_text "Settings"
              ∷ [])
            leaf
        ▹ leaf)

abbrev pub menu_btn_status_widget : Widget
menu_btn_status_widget =
    widget button (some Fields.menu_btn_status)
      (set_pos (px 0) (px 0)
        ∷ set_size (pct 100) (px 50)
        ∷ add_event_cb (navigates switch_to_status) clicked
        ∷ add_style menu_button
        ∷ [])
      (widget label none
          (set_pos (px 0) (px 0)
            ∷ set_size content content
            ∷ add_style menu_button_label
            ∷ label_set_text "Status"
            ∷ [])
          leaf
        ▹ leaf)

abbrev pub menu_btn_advanced_widget : Widget
menu_btn_advanced_widget =
    widget button (some Fields.menu_btn_advanced)
      (set_pos (px 0) (px 0)
        ∷ set_size (pct 100) (px 50)
        ∷ add_event_cb (navigates switch_to_advanced_menu) clicked
        ∷ clear_flag (snappable ∷ [])
        ∷ add_style menu_button
        ∷ [])
      (widget label none
          (set_pos (px 0) (px 0)
            ∷ set_size content content
            ∷ add_style menu_button_label
            ∷ label_set_text "Advanced"
            ∷ [])
          leaf
        ▹ leaf)

abbrev pub menu_btn_about_widget : Widget
menu_btn_about_widget =
    widget button (some Fields.menu_btn_about)
      (set_pos (px 0) (px 0)
        ∷ set_size (pct 100) (px 50)
        ∷ add_event_cb (navigates switch_to_about) clicked
        ∷ clear_flag (snappable ∷ [])
        ∷ add_style menu_button
        ∷ [])
      (widget label none
          (set_pos (px 0) (px 0)
            ∷ set_size content content
            ∷ add_style menu_button_label
            ∷ label_set_text "About"
            ∷ [])
          leaf
        ▹ leaf)

abbrev pub menu_items_container_list : Widget
menu_items_container_list =
    widget obj none
      (set_pos (px 0) (px 0)
        ∷ set_size (pct 100) content
        ∷ style pad_left (number 0)
        ∷ style pad_top (number 0)
        ∷ style pad_bottom (number 0)
        ∷ style bg_opa (number 0)
        ∷ style border_width (number 0)
        ∷ style radius (number 0)
        ∷ clear_flag (scrollable ∷ [])
        ∷ add_style flex_column_start
        ∷ style pad_right (number 10)
        ∷ [])
      (menu_btn_status_widget
        ▹ widget button (some Fields.menu_btn_network)
            (set_pos (px 0) (px 0) ∷ set_size (pct 100) (px 50) ∷ add_style menu_button ∷ [])
            (widget label none
                (set_pos (px 0) (px 0)
                  ∷ set_size content content
                  ∷ add_style menu_button_label
                  ∷ label_set_text "Network"
                  ∷ [])
                leaf
              ▹ leaf)
        ▹ widget button (some Fields.menu_btn_access)
            (set_pos (px 0) (px 0)
              ∷ set_size (pct 100) (px 50)
              ∷ clear_flag (snappable ∷ [])
              ∷ add_style menu_button
              ∷ [])
            (widget label none
                (set_pos (px 0) (px 0)
                  ∷ set_size content content
                  ∷ add_style menu_button_label
                  ∷ label_set_text "Access"
                  ∷ [])
                leaf
              ▹ leaf)
        ▹ menu_btn_advanced_widget
        ▹ menu_btn_about_widget
        ▹ leaf)

abbrev pub menu_screen_frame : Widget
menu_screen_frame =
    widget obj none
      (set_pos (px 0) (px 0)
        ∷ set_size (pct 100) (pct 100)
        ∷ boxed 0 0 0 0 0 (clear_flag (scrollable ∷ []) ∷ add_style flex_start ∷ []))
      (menu_header_container_widget
        ▹ widget obj (some Fields.menu_items_container)
            (set_pos (px 0) (px 0)
              ∷ set_size (pct 100) (pct 80)
              ∷ style pad_left (number 0)
              ∷ style pad_top (number 0)
              ∷ style pad_bottom (number 0)
              ∷ style bg_opa (number 0)
              ∷ style border_width (number 0)
              ∷ style radius (number 0)
              ∷ add_flag (overflow_visible ∷ [])
              ∷ set_scrollbar_mode "LV_SCROLLBAR_MODE_AUTO"
              ∷ set_scroll_dir "LV_DIR_VER"
              ∷ set_scroll_snap_x "LV_SCROLL_SNAP_START"
              ∷ add_style flex_column_start
              ∷ style pad_right (number 4)
              ∷ set_style pad_right (number 2) scrollbar_default
              ∷ [])
            (menu_items_container_list ▹ leaf)
        ▹ leaf)

abbrev pub menu_screen_layout : Widget
menu_screen_layout =
    widget obj (some Fields.menu_screen)
      (set_pos (px 0) (px 0)
        ∷ set_size (px 300) (px 240)
        ∷ add_event_cb (navigates menu_screen_gesture) gesture
        ∷ add_style flex_screen_menu
        ∷ [])
      (menu_screen_frame ▹ leaf)
