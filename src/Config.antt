-- ===== src/Config.antt =====
-- rallyci/config.py: `Load` is the loop of `Config.__init__` over the file's entries, `Modules` the
-- cache of imported modules with what is built from it, `Logging` is `_configure_logging`.
pub mod Load
pub mod Data
pub mod Modules
pub mod Logging
mod Tests
