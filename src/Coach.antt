-- ===== src/Coach.antt =====
-- The speech coach of cloudflare/public.
pub mod Loop
pub mod Storage
