-- ===== src/Api.antt =====
-- custom_components/zte_router_5g/api.py, by its parts: `Classify` reads what a response proves about
-- the session, `Request` puts one request with its logins and its replay, `Batch` reads a list of names
-- in several requests, `Writes` puts a write and checks its result, and `Deletion` verifies a deletion.
pub mod Classify
pub mod Request
pub mod Batch
pub mod Writes
pub mod Deletion
pub mod Discovery
pub mod Volume
pub mod Apn
