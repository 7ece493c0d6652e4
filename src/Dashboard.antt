-- ===== src/Dashboard.antt =====
-- packages/dashboard: the manager of demo runs.
pub mod Run
pub mod Logs
pub mod Verified
pub mod Markers
pub mod Manager
pub mod Streams
pub mod Finish
pub mod Steps
pub mod Keeps
pub mod Restore
pub mod Moves
pub mod Changes
pub mod Stepping
pub mod History
pub mod Ownership
pub mod Filed
pub mod Recovery
pub mod Restored
pub mod Completion
pub mod Support
pub mod Receipts
pub mod Window
pub mod Tail
pub mod Single
pub mod Active
pub mod Terminal
pub mod Listing
pub mod Examples
pub mod Restart
