-- ===== src/Promote.antt =====
-- Publishing images and manifest sets (ci/promote.py, ci/steps/promote_step.py).
pub mod Image
pub mod Single
pub mod Sets
pub mod Command
pub mod Providers
