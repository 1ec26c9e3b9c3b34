-- ===== src/Core.antt =====
-- src/libs/typescript/core/src: the value objects and the rules that the services share.
pub mod Permissions
pub mod Members
pub mod Names
