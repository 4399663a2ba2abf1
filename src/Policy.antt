-- ===== src/Policy.antt =====
-- internal/policy: the filter that a search query passes before a job is made of it.
pub mod Regex
pub mod Unicode
pub mod Patterns
pub mod Search
