-- ===== src/Session.antt =====
-- pwnproxy/services/session/manager.py: the scope of a session, and the manager of the sessions.
pub mod Scope
pub mod Manager
pub mod Saved
pub mod Steps
pub mod Reached
pub mod Providers
