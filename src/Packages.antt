-- ===== src/Packages.antt =====
-- The package side of gucc: profiles, package lists, repositories and the CPU's ISA levels.
pub mod Profiles
pub mod Lists
pub mod PacmanConf
pub mod Cpu
pub mod Repos
