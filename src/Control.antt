-- ===== src/Control.antt =====
-- internal/control: the control plane.
pub mod Files
pub mod Root
pub mod Mode
pub mod Warnings
pub mod Manager
pub mod Status
pub mod Validation
pub mod Plane
pub mod Construct
pub mod Interleaved
pub mod Guidance
pub mod Tools
