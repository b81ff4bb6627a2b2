-- ===== src/Models.antt =====
-- models.py and db.py: the rows of the database, and a request's session with it.
pub mod Rows
pub mod Session
