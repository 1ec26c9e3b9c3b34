-- ===== src/Web.antt =====
-- The Fetch API of the platform, as far as the code uses it: parameters and their laws.
pub mod Headers
pub mod Entries
pub mod RegExp
