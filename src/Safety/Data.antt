-- ===== src/Safety/Data.antt =====
-- The primitives on numbers, strings and vectors, and the rest of the table that is modelled.
pub mod Numbers
pub mod Texts
pub mod Entries
pub mod Sets
pub mod Table
