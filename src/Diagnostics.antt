-- ===== src/Diagnostics.antt =====
-- What a diagnostics download publishes of the router's payload
-- (custom_components/zte_router_5g/diagnostics.py): `Tokens` is `_Tokenizer` and `_sweep`, `Payload` the
-- sanitizers, the others what they do not let through.
pub mod Tokens
pub mod Payload
pub mod Veil
pub mod Disguise
pub mod Messages
pub mod Private
