-- ===== src/Guards.antt =====
-- The daemon threads of compute_space/src/compute_space/core that watch the host: memory_guard.py, the guard of
-- storage.py, and image_pruner.py.
pub mod Memory
pub mod Storage
pub mod Images
mod Tests
