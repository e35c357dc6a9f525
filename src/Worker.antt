-- ===== src/Worker.antt =====
-- src/phera/worker/runner.py, with src/phera/modules/transcription/job.py.
pub mod Transcription
pub mod Events
pub mod Settled
pub mod Rollup
pub mod Counts
pub mod Examples
