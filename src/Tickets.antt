-- ===== src/Tickets.antt =====
-- src/phera/modules/tickets: tickets, and how messages and calls come to them.
pub mod Coerce
pub mod SupportAgents
pub mod ReusePolicy
pub mod ShortId
pub mod Channels
pub mod Contacts
pub mod Joining
pub mod Inbound
