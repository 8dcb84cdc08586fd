-- ===== src/Coordinator.antt =====
-- custom_components/zte_router_5g/coordinator.py, by its parts: what a poll does to the poll plan
-- (`PlanUpdate`), the optional endpoints (`Endpoints`), the poll itself (`Polling`), the
-- expected-outage window (`Outage`) and the uptime latches (`Uptime`).
pub mod PlanUpdate
pub mod Endpoints
pub mod Polling
pub mod Outage
pub mod Uptime
