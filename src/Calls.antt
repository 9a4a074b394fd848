-- ===== src/Calls.antt =====
-- internal/service/call with the tables that it works on.
pub mod Types
pub mod Store
pub mod Participants
pub mod Rows
pub mod Kept
pub mod Found
pub mod Keeping
pub mod Writes
pub mod RowWrites
pub mod Keepers
pub mod Guarded
pub mod Moderation
pub mod Runs
pub mod Closing
pub mod Ending
pub mod Departure
pub mod Entering
pub mod Newcomers
pub mod Examples
pub mod Rooms
pub mod Actions
pub mod Service
pub mod Targets
pub mod Capacity
pub mod Starting
pub mod Joining
pub mod Hosting
pub mod Controls
pub mod Leaving
pub mod Breakout
pub mod Alike
pub mod Blind
pub mod Muting
pub mod Sharing
