-- ===== src/Auth.antt =====
-- backend/internal/auth, and backend/internal/database/auth_repository.go.
pub mod Types
pub mod Password
pub mod Input
pub mod Repository
pub mod Service
