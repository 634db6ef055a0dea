-- ===== src/Assets.antt =====
-- scripts/model_assets.py
pub mod Digest
pub mod Verify
pub mod Download
pub mod Prepare
