-- ===== src/Ui.antt =====
-- The firmware's own part of the display: targets/rv1106/native/eez/src/ui/ui.c, vars.c and
-- actions.c. The widgets themselves, built by the generated screens.c, are names here.
pub mod Vars
pub mod Hold
pub mod Navigation
pub mod Index
