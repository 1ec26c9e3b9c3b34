-- ===== src/Sdk.antt =====
-- The TypeScript SDK, src/sdks/typescript/src: one module for each source file.
pub mod Value
pub mod Errors
pub mod Effect
pub mod Http
pub mod Api
pub mod DataPlane
pub mod Streaming
pub mod Frames
pub mod Commands
pub mod Files
pub mod Sandbox
pub mod Templates
pub mod Ports
pub mod Client
