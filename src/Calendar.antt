-- ===== src/Calendar.antt =====
-- The shared calendar (src/services/calendar.js): swaps of custody days, and events.
pub mod Swaps
pub mod Exchange
pub mod Accept
pub mod Transposition
pub mod Events
pub mod Removal
mod Tests
