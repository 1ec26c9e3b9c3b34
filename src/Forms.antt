-- ===== src/Forms.antt =====
-- src/apps/console-web/src/features: what the forms of the console make of their inputs.
pub mod DisplayNames
pub mod Slug
mod Tests
