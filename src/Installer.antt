-- ===== src/Installer.antt =====
-- src/config.cpp, src/utils.cpp, src/disk.cpp, src/simple_tui.cpp and the menus of src/crypto.cpp,
-- src/drivers.cpp and src/misc.cpp: the installer itself, on the library gucc.
pub mod State
pub mod Settings
pub mod Numbers
pub mod System
pub mod Steps
pub mod Disk
pub mod Zfs
pub mod Filesystems
pub mod Crypt
pub mod Packages
pub mod Base
pub mod Loader
pub mod Grub
pub mod Simple
pub mod Menu
pub mod Connection
pub mod Checks
pub mod Luks
pub mod Drivers
pub mod Misc
