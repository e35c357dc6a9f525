-- ===== src/Email.antt =====
-- src/phera/modules/connectors/imap_smtp.py and src/phera/modules/tickets/email_poll.py: the mailboxes
-- that the worker polls.
pub mod Provider
pub mod Poll
pub mod Claims
pub mod Alone
pub mod Watermark
mod Examples
pub mod Stuck
mod StuckExamples
