-- ===== src/Tests.antt =====
-- Tables held as lists, sample data, and the theorems at concrete inputs.
mod Tables
mod Samples
mod Shop
mod Payments
mod Queue
mod Passes
mod Auth
mod Catalog
mod Texts
mod Site
mod Notes
