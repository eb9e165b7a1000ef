-- ===== src/System.antt =====
-- The shop as a whole: every call from outside as one step, and the states that any number of
-- them, in any order, can reach.
pub mod Buyers
pub mod Entries
pub mod Paid
