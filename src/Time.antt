-- ===== src/Time.antt =====
-- The date and time helpers of client/src/services/common.ts.
pub mod Host
pub mod Clock
pub mod Dates
pub mod ClockLaws
pub mod DateLaws
mod Tests
pub mod Samples
