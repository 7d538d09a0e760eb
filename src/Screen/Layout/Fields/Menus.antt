-- ===== src/Screen/Layout/Fields/Menus.antt =====
-- The fields of `objects` in eez/src/ui/screens.h for the widgets of the first screens and the menus.
use hardware_os.Base.{ℕ}

abbrev pub boot_logo : ℕ
boot_logo = 12

abbrev pub boot_screen_version : ℕ
boot_screen_version = 13

abbrev pub no_network_header_container : ℕ
no_network_header_container = 14

abbrev pub no_network_header_logo : ℕ
no_network_header_logo = 15

abbrev pub no_network_content_container : ℕ
no_network_content_container = 16

abbrev pub no_network_title : ℕ
no_network_title = 17

abbrev pub home_info_ipv6_addr_1 : ℕ
home_info_ipv6_addr_1 = 18

abbrev pub home_header_container : ℕ
home_header_container = 19

abbrev pub home_header_logo : ℕ
home_header_logo = 20

abbrev pub cloud_status_icon : ℕ
cloud_status_icon = 21

abbrev pub cloud_status_label : ℕ
cloud_status_label = 22

abbrev pub home_info_container : ℕ
home_info_container = 23

abbrev pub home_info_ipv4_addr : ℕ
home_info_ipv4_addr = 24

abbrev pub home_info_ipv6_addr : ℕ
home_info_ipv6_addr = 25

abbrev pub home_info_mac_addr : ℕ
home_info_mac_addr = 26

abbrev pub divider : ℕ
divider = 27

abbrev pub home_status_container : ℕ
home_status_container = 28

abbrev pub usb_status : ℕ
usb_status = 29

abbrev pub usb_indicator : ℕ
usb_indicator = 30

abbrev pub usb_status_label : ℕ
usb_status_label = 31

abbrev pub hdmi_status : ℕ
hdmi_status = 32

abbrev pub hdmi_indicator : ℕ
hdmi_indicator = 33

abbrev pub hdmi_status_label : ℕ
hdmi_status_label = 34

abbrev pub menu_header_container : ℕ
menu_header_container = 35

abbrev pub menu_items_container : ℕ
menu_items_container = 36

abbrev pub menu_btn_status : ℕ
menu_btn_status = 37

abbrev pub menu_btn_network : ℕ
menu_btn_network = 38

abbrev pub menu_btn_access : ℕ
menu_btn_access = 39

abbrev pub menu_btn_advanced : ℕ
menu_btn_advanced = 40

abbrev pub menu_btn_about : ℕ
menu_btn_about = 41

abbrev pub menu_header_container_1 : ℕ
menu_header_container_1 = 42

abbrev pub menu_items_container_1 : ℕ
menu_items_container_1 = 43

abbrev pub menu_btn_advanced_developer_mode : ℕ
menu_btn_advanced_developer_mode = 44

abbrev pub menu_btn_advanced_usb_emulation : ℕ
menu_btn_advanced_usb_emulation = 45

abbrev pub menu_btn_advanced_reboot : ℕ
menu_btn_advanced_reboot = 46

abbrev pub menu_btn_dhcp_client : ℕ
menu_btn_dhcp_client = 47

abbrev pub menu_btn_advanced_reset_config : ℕ
menu_btn_advanced_reset_config = 48

abbrev pub menu_header_container_2 : ℕ
menu_header_container_2 = 49

abbrev pub menu_items_container_2 : ℕ
menu_items_container_2 = 50

abbrev pub menu_btn_network_ipv4 : ℕ
menu_btn_network_ipv4 = 51

abbrev pub menu_btn_network_ipv6 : ℕ
menu_btn_network_ipv6 = 52

abbrev pub menu_btn_network_lldp : ℕ
menu_btn_network_lldp = 53
