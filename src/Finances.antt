-- ===== src/Finances.antt =====
-- Shared expenses (src/services/finances.js, with `serializeExpense` of src/services/calendar.js and
-- the receipt checks of src/services/receiptOcr.js). Identifiers are opaque texts that are only
-- compared, so they are numbers here; times are milliseconds. Amounts and ratios are JavaScript
-- numbers: their type, the rounding, and the integrity hash are parameters.
pub mod Receipts
pub mod Expenses
pub mod Status
pub mod Children
pub mod Create
pub mod Creation
mod Tests
