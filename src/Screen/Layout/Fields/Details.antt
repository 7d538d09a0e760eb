-- ===== src/Screen/Layout/Fields/Details.antt =====
-- The fields of `objects` in eez/src/ui/screens.h for the widgets of the other screens.
use hardware_os.Base.{ℕ}

abbrev pub about_header_container : ℕ
about_header_container = 54

abbrev pub about_items_container : ℕ
about_items_container = 55

abbrev pub system_version_container : ℕ
system_version_container = 56

abbrev pub system_version : ℕ
system_version = 57

abbrev pub app_version_container : ℕ
app_version_container = 58

abbrev pub app_version : ℕ
app_version = 59

abbrev pub build_branch_container : ℕ
build_branch_container = 60

abbrev pub build_branch : ℕ
build_branch = 61

abbrev pub build_date_container : ℕ
build_date_container = 62

abbrev pub build_date : ℕ
build_date = 63

abbrev pub golang_version_container : ℕ
golang_version_container = 64

abbrev pub golang_version : ℕ
golang_version = 65

abbrev pub lvgl_version_container : ℕ
lvgl_version_container = 66

abbrev pub lvgl_version : ℕ
lvgl_version = 67

abbrev pub kernel_version_container : ℕ
kernel_version_container = 68

abbrev pub kernel_version : ℕ
kernel_version = 69

abbrev pub cpu_serial_container : ℕ
cpu_serial_container = 70

abbrev pub cpu_serial : ℕ
cpu_serial = 71

abbrev pub status_header_container : ℕ
status_header_container = 72

abbrev pub status_items_container : ℕ
status_items_container = 73

abbrev pub device_id_container : ℕ
device_id_container = 74

abbrev pub device_id : ℕ
device_id = 75

abbrev pub cloud_account_id_container : ℕ
cloud_account_id_container = 76

abbrev pub app_version_1 : ℕ
app_version_1 = 77

abbrev pub cloud_domain_container : ℕ
cloud_domain_container = 78

abbrev pub cloud_domain : ℕ
cloud_domain = 79

abbrev pub reset_config_header : ℕ
reset_config_header = 80

abbrev pub reset_config_container : ℕ
reset_config_container = 81

abbrev pub reset_config_label_container : ℕ
reset_config_label_container = 82

abbrev pub reset_config_label : ℕ
reset_config_label = 83

abbrev pub reset_config_spinner : ℕ
reset_config_spinner = 84

abbrev pub reset_config_button : ℕ
reset_config_button = 85

abbrev pub obj0 : ℕ
obj0 = 86

abbrev pub reboot_header : ℕ
reboot_header = 87

abbrev pub reboot_container : ℕ
reboot_container = 88

abbrev pub reboot_label_container : ℕ
reboot_label_container = 89

abbrev pub reboot_label : ℕ
reboot_label = 90

abbrev pub reboot_config_button : ℕ
reboot_config_button = 91

abbrev pub obj1 : ℕ
obj1 = 92

abbrev pub reboot_in_progress_logo : ℕ
reboot_in_progress_logo = 93

abbrev pub reboot_in_progress_label : ℕ
reboot_in_progress_label = 94

abbrev pub dhcp_client_header : ℕ
dhcp_client_header = 95

abbrev pub dhcp_client_container : ℕ
dhcp_client_container = 96

abbrev pub dhcp_client_label_container : ℕ
dhcp_client_label_container = 97

abbrev pub dhcpc_label : ℕ
dhcpc_label = 98

abbrev pub dhcp_client_spinner : ℕ
dhcp_client_spinner = 99

abbrev pub dhcp_client_button : ℕ
dhcp_client_button = 100

abbrev pub obj2 : ℕ
obj2 = 101

abbrev pub dhcp_client_change_label : ℕ
dhcp_client_change_label = 102
