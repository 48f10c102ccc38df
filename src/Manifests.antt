-- ===== src/Manifests.antt =====
-- compute_space/src/compute_space/core/manifest.py: what an app declares about itself in its TOML manifest,
-- how that is checked, and which of it an owner has to approve. `tomllib.loads` and `json.dumps` are
-- parameters.
pub mod Toml
pub mod Ports
pub mod Container
pub mod Services
pub mod Sections
pub mod Parsed
pub mod Declared
mod Tests
