-- ===== src/Boot.antt =====
-- The boot side of gucc: kernel parameters, the initramfs and the boot loaders.
pub mod KernelParams
pub mod Initcpio
pub mod Grub
pub mod Loaders
