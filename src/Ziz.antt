-- ===== src/Ziz.antt =====
-- internal/ziz: the export of the articles and media of a WordPress site.
pub mod Types
pub mod Client
pub mod Parts
pub mod Pool
pub mod Validate
pub mod Media
pub mod Download
pub mod Migrate
