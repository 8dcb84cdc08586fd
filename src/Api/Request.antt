-- ===== src/Api/Request.antt =====
-- One request to the router (custom_components/zte_router_5g/api.py): `_Call`, `_perform`, `_send`,
-- `_dispose`, `_replay` and the login that each of them may make. `Client` is the state, `Session`
-- what ends and renews a session, `Ruling` the verdict on a response, `Perform` the request itself;
-- the other children prove how often a request is put and how it ends.
pub mod Client
pub mod Session
pub mod Ruling
pub mod Perform
pub mod Bounds
pub mod Faults
pub mod Gate
