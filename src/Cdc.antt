-- ===== src/Cdc.antt =====
-- A virtual serial port: components/usbipdcpp/usbipdcpp/src/virtual_device/
-- CdcAcmVirtualInterfaceHandler.cpp and its header. Comm is the interface for control, Data the one
-- for the bytes. The functions that a subclass overrides are arguments, or calls in the outcome.
pub mod Comm
pub mod Coding
pub mod Data
pub mod Flow
pub mod Runs
pub mod LineCoding
pub mod Notifications
mod Serial
mod Examples
