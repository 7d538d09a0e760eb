-- ===== src/Screen/Layout/Fields.antt =====
-- The fields of `objects`, by their position in `objects_t` of eez/src/ui/screens.h; the structure is
-- read as an array by `getLvglObjectFromIndex`. First are those of the screens.
mod Menus
mod Details
use hardware_os.Base.{ℕ}
pub use Menus.*
pub use Details.*

abbrev pub boot_screen : ℕ
boot_screen = 0

abbrev pub no_network_screen : ℕ
no_network_screen = 1

abbrev pub home_screen : ℕ
home_screen = 2

abbrev pub menu_screen : ℕ
menu_screen = 3

abbrev pub menu_advanced_screen : ℕ
menu_advanced_screen = 4

abbrev pub menu_network_screen : ℕ
menu_network_screen = 5

abbrev pub about_screen : ℕ
about_screen = 6

abbrev pub status_screen : ℕ
status_screen = 7

abbrev pub reset_config_screen : ℕ
reset_config_screen = 8

abbrev pub reboot_screen : ℕ
reboot_screen = 9

abbrev pub rebooting_screen : ℕ
rebooting_screen = 10

abbrev pub switch_dhcp_client_screen : ℕ
switch_dhcp_client_screen = 11

-- The number of the fields.
abbrev pub fields : ℕ
fields = 103
