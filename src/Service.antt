-- ===== src/Service.antt =====
-- internal/service: what the service manager is asked to do.
pub mod Units
pub mod Cmdline
