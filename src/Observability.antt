-- ===== src/Observability.antt =====
-- internal/observability: the ring of recent adoption events and the log limiter.
pub mod Ring
pub mod LogLimiter
