-- ===== src/Sdk/Files.antt =====
-- src/sdks/typescript/src/files.ts: the files of a sandbox.
pub mod Operations
pub mod Budget
pub mod Watching
pub mod Contents
