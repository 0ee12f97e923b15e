-- ===== src/Base.antt =====
-- The names that every other module shares.
pub mod Tests
pub mod Lists
pub mod Int
pub mod Text
pub mod TextLaws
pub mod Splitting
pub mod Sort
pub mod Map
