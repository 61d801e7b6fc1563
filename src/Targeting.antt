-- ===== src/Targeting.antt =====
-- backend/internal/targeting and backend/internal/database/targeting_repository.go.
pub mod Types
pub mod Repository
pub mod Schedules
pub mod Service
