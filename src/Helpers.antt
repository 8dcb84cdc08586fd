-- ===== src/Helpers.antt =====
-- custom_components/zte_router_5g/helpers.py: the band tables and the billing cycle.
pub mod Bands
pub mod Cycle
