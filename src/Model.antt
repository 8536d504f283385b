-- ===== src/Model.antt =====
-- The data model of the build (ci/glci/model.py), one module for each group of its definitions.
pub mod Targets
pub mod Features
pub mod Modifiers
pub mod Flavours
pub mod Manifests
pub mod Versions
pub mod Tests
