-- ===== src/Python.antt =====
-- The Python values, texts and exceptions that the modelled code uses.
pub mod Text
pub mod Order
pub mod TextOrder
pub mod Strip
pub mod Value
pub mod Equality
pub mod Raise
pub mod Number
