-- ===== src/Bus.antt =====
-- The event bus (pwnproxy/shared/bus, pwnproxy/shared/hooks.py).
pub mod Topics
pub mod Queue
pub mod Hooks
pub mod InProcess
