-- ===== src/Tests.antt =====
-- Runs on concrete data, and the theorems at them.
pub mod Parsing
pub mod Serving
pub mod Queueing
pub mod Reading
pub mod Responding
pub mod Keeping
pub mod Counting
pub mod Routing
pub mod Transmitting
pub mod Visiting
pub mod Fetching
pub mod Handling
pub mod Configuring
pub mod Running
