-- ===== src/Store.antt =====
-- internal/store: the tables, the statements of store.go and api_keys.go over them, and what holds
-- of the job queue, the product catalogue and the API keys. The statements' meaning is written out;
-- what Postgres itself chooses or generates is a parameter (`Store.Db.Postgres`).
pub mod Db
pub mod Jobs
pub mod Catalogue
pub mod Complete
pub mod Keys
pub mod Lifecycle
