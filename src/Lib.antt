-- ===== src/Lib.antt =====
-- The CachyOS installer and its library gucc: what they write to the new system, what they run, and
-- what they read.
--
-- The installer prepares a disk, mounts it, writes the configuration of the new system and installs
-- packages and a boot loader. Its library (gucc/src, gucc/include/gucc) does the work; each function
-- either computes a text from a scheme of partitions or asks the operating system by commands and files.
--
-- Base holds the names that all share, with texts by clauses, sorting routines as an interface and
-- decimal numbers. Sys is the operating system: a log of requests, newest first, and an environment that
-- answers each request from the log before it, so that no answer is assumed; Sys.Io has exec,
-- exec_checked, arch_chroot and the files (gucc/src/io_utils.cpp, file_utils.cpp), and Sys.Script the
-- scripts that chains of `if (!exec_checked(...)) return false;` implement. Lines is string_utils.
--
-- Disk: Fstab (fstab.cpp), Crypttab (crypttab.cpp), Btrfs (btrfs.cpp), Mtab (mtab.cpp), Umount
-- (umount_partitions.cpp), Partitioning (partitioning.cpp), Zfs (zfs.cpp), Luks (luks.cpp), Swap (swap.cpp
-- and fs_utils.cpp), Mount (mount_partitions.cpp), BlockDevices (block_devices.cpp).
-- Boot: KernelParams (kernel_params.cpp), Initcpio (initcpio.cpp, initcpio.hpp), Grub and Loaders
-- (bootloader.cpp).
-- Host: User (user.cpp, autologin.cpp), Locale (locale.cpp, hwclock.cpp, systemd_services.cpp, chwd.cpp).
-- Packages: Profiles (package_profiles.cpp), Lists (package_list.cpp, fetch_file.cpp), PacmanConf
-- (pacmanconf_repo.cpp), Cpu (cpu.cpp), Repos (repos.cpp).
--
-- Installer is the program on top of the library (src/config.cpp, utils.cpp, disk.cpp,
-- kernel_params.cpp, follow_process_log.cpp, simple_tui.cpp, crypto.cpp, drivers.cpp, misc.cpp).
-- Installer.State has the map of the settings, whose values are variants, and computations over the
-- settings and the system, which may give no result: at std::get of another alternative, an
-- exception in a noexcept function, exit, and an assertion whose condition is false, behind which a
-- build with NDEBUG is undefined. Settings is parse_config; System runs commands by the settings;
-- Steps, Checks and Connection are the steps of an installation; Disk, Zfs, Filesystems and Crypt
-- prepare the disks; Packages and Base install the system, Loader and Grub the boot loader; Simple
-- and Menu put them together as simple_tui.cpp does. Luks (crypto.cpp), Drivers (drivers.cpp) and
-- Misc (misc.cpp) are menus, whose widgets are a record. A vector or a setting that a function
-- changes by reference is a result of its definition.
--
-- A definition has the name of the function that it translates, and its helpers stand in front of it.
-- Every loop of the code runs over a list or a text and is structural recursion, and waiting for a
-- connection recurs on the rounds that are left before its timeout, so there is no fuel.
-- What the language leaves undefined, such as the use of an iterator at the end, is a value of the
-- result (`none`, `undefined`, `fault` or `terminated`). std::ranges::sort is a parameter, a `Sorter`,
-- of which only its documented promises are used; it need not be stable. So are the TOML and JSON
-- libraries, the registers that cpuid returns, the names in a directory, and the dialogs of the
-- terminal interface, which Installer.Menu and Installer.Luks take as records.
--
-- Not modelled: the menus of the terminal interface (src/tui.cpp, widgets.cpp) and its threads,
-- waiting for a time, logging, and the cache of the CPU features.
pub mod Base
pub mod Sys
pub mod Lines
pub mod Disk
pub mod Boot
pub mod Host
pub mod Packages
pub mod Installer
pub mod Tests
