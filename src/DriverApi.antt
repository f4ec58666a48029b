-- ===== src/DriverApi.antt =====
-- kernel/DriverApi.cpp: what a driver has subscribed to.
pub mod State
pub mod Interrupts
pub mod Devices
pub mod Lifecycle
pub mod Shrinks
pub mod Taken
pub mod Idle
pub mod Exclusive
pub mod Vectors
pub mod Reachable
pub mod Arrays
pub mod Removed
pub mod Outcomes
pub mod Memory
pub mod Ranges
pub mod Release
pub mod Cover
pub mod Subscriptions
