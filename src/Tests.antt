-- ===== src/Tests.antt =====
-- Runs of the operations at concrete inputs.
mod Edid
mod Layouts
mod Devices
mod Processors
mod Vision
mod Screen
mod Ui
mod Video
mod Server
mod Stream
