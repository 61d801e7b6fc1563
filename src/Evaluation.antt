-- ===== src/Evaluation.antt =====
-- backend/internal/evaluation
pub mod Types
pub mod Runtime
pub mod Decode
pub mod Floats
pub mod Values
pub mod Matching
pub mod Validate
pub mod Evaluate
pub mod SegmentSet
