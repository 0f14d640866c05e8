-- ===== src/Host.antt =====
-- The side of gucc that sets up the installed system: users, locale, clock, services.
pub mod User
pub mod Locale
