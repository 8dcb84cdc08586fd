-- ===== src/PollPlan.antt =====
-- custom_components/zte_router_5g/poll_plan.py: which names each poll asks the router for.
-- `Tables` holds the constants, `Plan` the state, `Selection` the choice of the names, `Readers` what
-- a poll teaches, `Lifecycle` the counters and the store; the other children prove the properties.
pub mod Tables
pub mod Plan
pub mod Selection
pub mod Readers
pub mod Lifecycle
