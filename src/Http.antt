-- ===== src/Http.antt =====
-- backend/internal/httpapi.
pub mod Auth
pub mod Guard
