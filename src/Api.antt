-- ===== src/Api.antt =====
-- src/phera/api/routes: the request handlers. A handler raises `http` where the source raises an
-- `HTTPException`.
pub mod Enrichment
pub mod Tickets
pub mod Providers
pub mod Reply
pub mod Conversation
pub mod Inbox
pub mod Access
pub mod Contacts
pub mod Pipelines
pub mod Deals
pub mod Calls
pub mod Teams
pub mod Changed
pub mod Refines
pub mod Outcomes
pub mod Requests
mod Runs
pub mod Examples
pub mod Foreign
