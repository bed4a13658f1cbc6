-- ===== src/Llm.antt =====
-- pwnproxy/ai/llm: the circuit breaker of the providers and the client that falls through them.
pub mod Breaker
pub mod Client
