-- ===== src/Service.antt =====
-- src/lms200/service.py: the fan-out of scans to subscribers and to the recording, and the actions
-- on the device. The tasks of asyncio are steps of a sequence: `record_one` is a round of the task
-- that records.
pub mod Fanout
pub mod Accounts
pub mod Actions
