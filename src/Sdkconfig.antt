-- ===== src/Sdkconfig.antt =====
-- backend/internal/sdkconfig
pub mod Types
pub mod Referenced
pub mod Invalidation
pub mod Service
pub mod Repository
pub mod Credentials
