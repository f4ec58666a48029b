-- ===== src/Tests.antt =====
-- Concrete runs: each theorem of the library that has hypotheses, applied where they hold.
pub mod Addresses
pub mod Queues
pub mod Events
pub mod Lists
pub mod Threads
pub mod Drivers
pub mod Pool
pub mod Text
pub mod Registry
pub mod Timers
pub mod Pages
