-- ===== src/Lib.antt =====
-- Verification library for the ZTE router integration of Home Assistant
-- (custom_components/zte_router_5g).
--
-- One coordinator polls the router through a client. `poll_plan.py` decides which names a poll
-- asks for and learns from the answers; `coordinator.py` runs the poll, holds values when it
-- fails, keeps the budget of the optional endpoints, the expected-outage window and the anchors of
-- the uptime counters; `api.py` sends the requests, renews the session, judges by each response
-- whether the session still lives, splits long lists of names, verifies writes and deletions, and
-- probes for names that the device may answer; `observations.py` remembers what the router has
-- reported; `reset_entities.py` plans the bulk enabling and disabling of entities; `helpers.py`
-- has the band tables and the billing cycle; `diagnostics.py` strips a payload of what is private
-- before it is downloaded; `__init__.py` has the services, of which the choice of the messages to
-- delete is modelled.
--
-- Prelude: lists, sets of names, dicts and integers over the native numbers. Value: the values of
-- a payload. PollPlan: `PollPlan` of poll_plan.py, with Selection for `names`, Readers for
-- `learn_readers` and `learn_answers`, Lifecycle for the store. Coordinator.PlanUpdate:
-- `_update_poll_plan`. Coordinator.Endpoints: `_fetch_optional`. Coordinator.Polling:
-- `_async_update_data_locked`. Coordinator.Outage: `async_open_expected_outage`,
-- `_async_outage_check` and what they call. Coordinator.Uptime: `_UptimeLatch`, `_apply_uptime`
-- and what it calls, `_device_uptime_raw`. Api.Classify: `_classify_session`. Api.Request:
-- `_request`, `_perform`, `_dispose`, `login`. Api.Batch: `_batch_get`. Api.Writes:
-- `_retry_once_on_refusal`. Api.Deletion: `verify_deleted`. Api.Discovery: `_probe_chunk`,
-- `probe_names` in Pass, `_reprobe_singly` in Singly, `run_discovery` in Report. Api.Volume: the
-- form of `set_data_volume_settings`. Api.Apn: `_resolve_apn_profile`. Observations:
-- `ObservationRecorder.observe`. ResetEntities: `_Planner` and its guards. Helpers:
-- `_channel_to_band` and `cycle_bounds`. Diagnostics: `_Tokenizer`, `_sweep` and
-- `_sanitize_payload`. Sms: `_check_new_sms` and `_messages_beyond_the_newest`. Examples: concrete
-- inputs.
--
-- Objects are records that the operations take and return. Times are natural numbers (microseconds
-- in the client, the plan and the latches, milliseconds in the outage window and the deletion).
-- Rates and quotients of floats are exact fractions, compared by multiplying out, and an instant
-- derived from one is rounded down. The router, the clock and Home Assistant's registry are
-- arguments: `World` answers the requests and logins of a client in order. `request` runs
-- `_perform` on fuel 2, since a replay is never replayed; `verify_deleted` runs on fuel 16, since
-- a listing a second fills its window of fifteen seconds; the slices of a pass take the number of
-- its names, and the names asked again the four rounds of the source. A pass runs over any
-- `Device`, which answers its requests.
--
-- Not modelled: logging and health counters, the parsing of floats, the persisted form of the
-- latches, the login form and its hashes, the tokens of writes, the JavaScript and web page
-- parsers, the matches of regular expressions and the parsing of dates (arguments here), the
-- entity platforms and the configuration flow. Two handlers of the outage window do not interleave
-- here.
pub mod Prelude
pub mod Value
pub mod PollPlan
pub mod Coordinator
pub mod Api
pub mod ResetEntities
pub mod Helpers
pub mod Diagnostics
pub mod Sms
pub mod Observations
pub mod Examples
