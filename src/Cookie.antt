-- ===== src/Cookie.antt =====
-- wg_cookie.c.
pub mod Ratelimit
pub mod Macs
