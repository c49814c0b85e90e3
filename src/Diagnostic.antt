-- ===== src/Diagnostic.antt =====
-- The commissioning programs of src/lms200: hardware_diagnostic.py and reset_experiment.py. Each opens
-- one serial port, sends at most a few fixed telegrams, and keeps what it received.
pub mod Capture
pub mod Bench
pub mod Repeat
pub mod Reset
pub mod Decisions
pub mod Modes
