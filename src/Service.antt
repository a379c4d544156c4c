-- ===== src/Service.antt =====
-- internal/service.
pub mod Send
pub mod Auth
pub mod Limiter
pub mod Delivery
