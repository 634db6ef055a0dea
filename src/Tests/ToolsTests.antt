-- ===== src/Tests/ToolsTests.antt =====
-- Runs of the checks of the CUDA tools and of the comparisons.
use tinyllama_inference_engi.Prelude.{
  ℕ, suc, ◌+◌, ◌-◌, ◌/◌, ◌%◌, ◌<◌, ◌≡◌, refl, ◌⊎◌, true, false, some, List, [], ◌∷◌, ◌++◌, arith,
  leb, length, get_elem?, Text, codes,
}
use tinyllama_inference_engi.Prelude.Int.{ℤ, pos}
use tinyllama_inference_engi.Prelude.Strings.{
  contains, starts_with, is_white, strip_left, join_with,
}
use tinyllama_inference_engi.Prelude.Sort.{sort_texts, insert_text}
use tinyllama_inference_engi.Result.{ok}
use tinyllama_inference_engi.Samples.{sample_floats}
use tinyllama_inference_engi.Benchmark.Gpu.{distinct}
use tinyllama_inference_engi.Tools.Wsl.{
  Environment, CudaToolEnvironment, Machine, OnWsl, get_variable, set_variable, is_wsl,
  has_conflicting_linux_driver, build_audit, prepare_on_wsl, prepare_cuda_tool_environment,
  prepare_cuda_tool_environment-OnWsl,
}
use tinyllama_inference_engi.Tools.Sanitizer.{
  Reported, summary_here, summary_in, require_clean_sanitizer, check_run, check_run-Reported,
}
use tinyllama_inference_engi.Comparison.{
  Measured, Agreement, common_prefix, prefix_from, mismatch_position, agreements, compare_int8,
}
use tinyllama_inference_engi.Comparison.Prefix.{IsPrefix, common_prefix_lem, compare_int8_passed}
use tinyllama_inference_engi.Llama.{cycle, repeated_context}
use tinyllama_inference_engi.Llama.Prompt.{repeated_context-Cycle}

abbrev machine : Machine
machine = record {
  release = ok (codes "5.15.0-microsoft-standard-WSL2");
  lower = λ t. t;
  wsl_libcuda = true;
  driver_directories = codes "/usr/lib/wsl/drivers/nv" ∷ codes "/usr/lib/wsl/drivers/nv" ∷ [];
  linux_libcuda = true;
  same_file = ok false;
  compiler = some (codes "/usr/bin/cc");
  audit_source = true;
  compile = ok tt;
  resolve = λ t. t;
}

abbrev environ : Environment
environ = (codes "LD_LIBRARY_PATH", codes "/opt/lib") ∷ []

abbrev path : Text
path = codes "/usr/lib/wsl/drivers/nv:/usr/lib/wsl/lib:/opt/lib"

abbrev environment : CudaToolEnvironment
environment = record {
  process_env = (codes "LD_LIBRARY_PATH", path) ∷ [];
  target_prefix =
      codes "/usr/bin/env"
      ∷ codes "LD_AUDIT=/tmp/out/wsl_cuda_ld_audit.so"
      ∷ (codes "LD_LIBRARY_PATH=" ++ path)
      ∷ [];
  audit_library = some (codes "/tmp/out/wsl_cuda_ld_audit.so");
}

environment_ok : prepare_cuda_tool_environment machine (codes "/tmp/out") environ ≡ ok environment
unfolding prepare_cuda_tool_environment is_wsl contains starts_with prepare_on_wsl distinct
    sort_texts insert_text get_variable set_variable join_with has_conflicting_linux_driver
    build_audit
environment_ok = refl

prepare_cuda_tool_environment-OnWsl_example :
    ((is_wsl machine ≡ ok false)
      × (environment.process_env ≡ environ)
      × (environment.target_prefix ≡ []))
    ⊎ ((is_wsl machine ≡ ok true) × OnWsl machine environ environment)
prepare_cuda_tool_environment-OnWsl_example =
    prepare_cuda_tool_environment-OnWsl machine (codes "/tmp/out") environ environment
      environment_ok

abbrev log : Text
log = codes "== LEAK SUMMARY: 0 bytes leaked in 0 allocations\n== ERROR SUMMARY: 0 errors\n"

run_ok : check_run (pos 0) log (codes "memcheck") ≡ ok tt
unfolding check_run require_clean_sanitizer contains starts_with summary_in summary_here is_white
    strip_left
run_ok = refl

check_run-Reported_example :
    (◌≡◌ {A = ℤ} (pos 0) (pos 0))
    × Reported (codes "LEAK SUMMARY:") (codes "0 bytes leaked in 0 allocations") log
    × Reported (codes "ERROR SUMMARY:") (codes "0 errors") log
check_run-Reported_example = check_run-Reported (pos 0) log run_ok

abbrev left : List ℤ
left = pos 5 ∷ pos 7 ∷ pos 1 ∷ []

abbrev right : List ℤ
right = pos 5 ∷ pos 7 ∷ pos 2 ∷ pos 3 ∷ []

two_common : common_prefix left right ≡ 2
unfolding common_prefix prefix_from
two_common = refl

common_prefix_lem_example :
    IsPrefix left right (common_prefix left right)
    × (mismatch_position left right ≡ common_prefix left right)
common_prefix_lem_example = common_prefix_lem left right

abbrev measured : Measured sample_floats
measured = record {
  top1_matches = true;
  cosine_similarity = 3;
  fp16_tokens = left;
  int8_tokens = left;
}

abbrev agreement : Agreement sample_floats
agreement = record { prefix = 3; agreement = 1; passed = true }

agreement_ok : compare_int8 sample_floats 2 left measured ≡ ok agreement
unfolding compare_int8 common_prefix prefix_from agreements
agreement_ok = refl

compare_int8_passed_example :
    (left ≡ left)
    × (left ≡ left)
    × (Agreement.prefix agreement ≡ length left)
    × (Agreement.agreement agreement ≡ length left / length left)
    × (leb 2 3 ≡ true)
compare_int8_passed_example =
    compare_int8_passed sample_floats 2 left measured agreement agreement_ok refl

abbrev seed : List ℕ
seed = 1 ∷ 450 ∷ 7483 ∷ []

prompt_ok : repeated_context seed 6 ≡ ok (1 ∷ 450 ∷ 7483 ∷ 450 ∷ 7483 ∷ 450 ∷ [])
unfolding repeated_context cycle
prompt_ok = refl

repeated_context-Cycle_example :
    (prompt : List ℕ) × (repeated_context seed 6 ≡ ok prompt)
    × (length prompt ≡ 6)
    × (get_elem? prompt 0 ≡ get_elem? seed 0)
    × ((i : ℕ) → suc i < 6 → get_elem? prompt (suc i) ≡ get_elem? seed (1 + i % (length seed - 1)))
repeated_context-Cycle_example = repeated_context-Cycle seed 6 (omega arith) (omega arith)
