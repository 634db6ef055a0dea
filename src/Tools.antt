-- ===== src/Tools.antt =====
-- The wrappers of CUDA tools: scripts/wsl_cuda_env.py, scripts/run_cuda_memcheck.py and
-- scripts/profile_cuda.py.
pub mod Wsl
pub mod Sanitizer
pub mod Profile
