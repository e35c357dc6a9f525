-- ===== src/Voice.antt =====
-- src/phera/api/routes/voice_hooks.py: the callbacks of the telephony provider.
pub mod Params
pub mod Calls
pub mod Events
pub mod Routes
pub mod Still
pub mod Guard
pub mod Once
pub mod Ended
pub mod Told
pub mod Noted
pub mod Rung
pub mod Quiet
pub mod Outcome
pub mod Examples
mod Rings
