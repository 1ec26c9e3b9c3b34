-- ===== src/Assets.antt =====
-- src/apps/marketing-site/scripts: how the images of the marketing site are written.
pub mod Crc
pub mod Scanlines
pub mod Png
pub mod Fonts
pub mod Shapes
