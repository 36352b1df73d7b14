-- ===== src/Xhci.antt =====
-- xhci.rs: the driver of the USB host controller, by parts.
pub mod Trb
pub mod Ring
pub mod Event
pub mod Context
pub mod Port
pub mod Controller
pub mod Commands
pub mod Regs
pub mod Scratchpad
pub mod Tests
