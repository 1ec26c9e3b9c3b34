-- ===== src/Console.antt =====
-- src/apps/console-api/src/server.ts and src/libs/typescript/api/src: the host of the console API.
pub mod Member
pub mod Gate
pub mod Routes
pub mod Server
pub mod Sandboxes
mod Tests
