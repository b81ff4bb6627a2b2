-- ===== src/Deploy.antt =====
-- deploy/: the plugin that installs certificates over the command line of a device.
pub mod Shell
pub mod Ios
