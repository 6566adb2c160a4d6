-- ===== src/Custody.antt =====
-- The custody calendar (src/services/custody/): proposed and active schedules, the slots that they
-- generate day by day, and exceptions to them. A notice to the messaging thread is a value that
-- the call returns; its text, and what `notifyScheduleThread` makes of it behind a `catch` that
-- drops every error, are not modelled here.
pub mod Dates
pub mod Pattern
pub mod Slots
pub mod Schedules
pub mod Persistence
pub mod Exceptions
