-- ===== src/Legacy.antt =====
-- Modules that nothing in the program loads any more, rallyci/cr.py and rallyci/environments, and the
-- stand-ins for a runner and a stream.
pub mod Cr
pub mod Environments
pub mod Fakes
