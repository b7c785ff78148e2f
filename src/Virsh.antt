-- ===== src/Virsh.antt =====
-- rallyci/providers/virsh.py: hosts that run virtual machines, and the provider that chooses among
-- them.
pub mod Interfaces
pub mod Config
pub mod Remote
pub mod Element
pub mod Bridge
pub mod Storage
pub mod Machine
pub mod Script
pub mod Build
pub mod Host
pub mod Provider
pub mod Metadata
mod Tests
