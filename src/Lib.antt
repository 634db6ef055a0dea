-- ===== src/Lib.antt =====
-- tinyllama-inference-engine: the Python tools around the engine
--
-- The repository has a C++/CUDA inference engine for one model and the Python scripts that prepare
-- its inputs and gate its outputs. This library models the scripts: they download and verify the
-- model's files, write them into the engine's weight container, and read the engine's traces.
--
-- The parts and their files
--   scripts/tlie_format.py, the writers of the TLIEWGT container: Format, with Format/Pack (the
--     `struct` formats), Format/Hex, Format/Utf8, Format/Numpy (what is used of numpy and hashlib,
--     as records with laws) and Format/Writer (`write_tensor_file`, `write_mixed_tensor_file`).
--     Format/Layout describes the bytes of a file without the loop, Format/Writer/Outcome and
--     Format/Writer/Aligned compare the files that are written with it.
--   scripts/compare_logits.py, `read_golden_logits`: Format/Reader.
--   scripts/model_assets.py: Assets/Digest (`sha256_file`), Assets/Verify (`verify_file`) and
--     Assets/Download (`download_file`). scripts/prepare_model.py: Assets/Prepare.
--   scripts/convert_model.py, scripts/convert_model_fp16.py and scripts/convert_model_int8.py:
--     Convert and its children.
--   scripts/source_snapshot.py: Snapshot (`collect_files`, `tree_sha256`), Snapshot/Document
--     (`create_snapshot`, `verify_snapshot`) and their theorems below Snapshot. JSON documents are
--     the values of Json, with floats as a parameter (Json/Floats) and equality in Json/Equal.
--   scripts/benchmark.py and scripts/benchmark_batch.py: the validators of the engine's results in
--     Benchmark and Benchmark/Kernels, with what they accept in Benchmark/Accepted,
--     Benchmark/Exact, Benchmark/Runtime and Benchmark/Batch;
--     Benchmark/Gpu (`parse_json_output`, `gpu_snapshot`, `summarize_gpu_monitor`),
--     Benchmark/Summary (`percentile`, `summarize`), Benchmark/Report (`run_json_monitored` and
--     `main` up to its verdict) and Benchmark/Baseline.
--   scripts/benchmark_int8.py: Quantized (`validate_result`, `acceptance`) and Quantized/Report, with
--     Quantized/Accepted and Quantized/Verdict.
--   scripts/benchmark_llamacpp.py: Llama, with the prompt and the measurements in Llama/Prompt.
--   scripts/compare_engines.py: Engines (`external_row`), Engines/Tlie (`tlie_rows`) and Engines/Rows
--     (`validate_rows`, `main`), with what a comparison satisfies in Engines/Comparable.
--   scripts/compare_int8.py and `main` of scripts/compare_logits.py: Comparison.
--   scripts/openai_smoke_test.py: Server (the requests and the streaming protocol), Server/Polling
--     (`wait_ready`, `wait_drained`), Server/Outcomes (the concurrent requests), Server/Smoke
--     (`main`), with Server/Polled, Server/Stream and Server/Passed.
--   scripts/load_test.py: Load (the validators), Load/Worker (`worker`), Load/Monitor (the polling of
--     the metrics) and Load/Accepted (the verdict), with Load/Memory,
--     Load/Counted, Load/Rounds and Load/Monitored.
--   scripts/wsl_cuda_env.py: Tools/Wsl. scripts/run_cuda_memcheck.py: Tools/Sanitizer.
--     scripts/profile_cuda.py: Tools/Profile.
--   Prelude, Result, Exec and Files are shared: helpers, the exceptions of Python as values, code
--     that changes a state and may raise (the state survives the exception), and the file system as
--     a function from a path to the bytes of the file there.
--   Samples and Tests run the model on small inputs.
--
-- How the parts interact: the preparation downloads and verifies each file of the manifest; the
-- converters verify their source, write a container with one of the two writers, digest it and
-- check it against the manifest; the reader checks a container that the writer made. The load test
-- takes its requests and its polling loops from the smoke test; the INT8 benchmark takes its summaries
-- from the CUDA benchmark; the reports name the tree digest of a snapshot.
--
-- Choices of the model
--   A Python `str` is a list of code points, `bytes` a list of numbers below 256. Messages of
--   exceptions are kept without what is formatted into them.
--   numpy, hashlib, torch, safetensors and the network are not in the repository: they are
--   parameters, records of operations with the laws that their documentation states.
--   The loop that reads a file in chunks runs on fuel, the length of the file: a round that goes
--   on takes at least one byte.
--   A source tree is the list of what `rglob` finds in it, each path with what it is: a directory, a
--   regular file with its bytes, a link, or something else.
--   The generators that the converters pass to the writers may raise in the middle of a file, and
--   so may `Tensors`.
--   A loop that polls until a deadline is a function of the list of its polls, each with whether the
--   deadline is still ahead, whether the process has ended, and the answer: it has no result while it
--   still polls. The loop over a watched command ends with an error of its own when its list does.
--   What a server, a process, a GPU query or Git answers is an argument; so are the text of
--   a JSON document (`json.loads`), the rows of `csv.reader`, and the order in which the concurrent
--   requests finish.
--   The workers of the load test are a step relation: a worker ends an iteration, raises, or stops, in
--   any order. A step changes the counters once at most, which the lock makes one action.
--   The operations of floats are a record, Json/Floats. Lists of floats are sorted by insertion, which
--   is what `sorted` yields for values that are ordered and finite.
--
-- Not modelled: the arguments of the command lines, what is printed, directories, permissions,
-- `fsync` and faults of the file system; the arithmetic of floats and of numpy; the starting and
-- stopping of processes, sockets, and the pool of threads; the CSV and Markdown text of the reports
-- and the fields that only copy an argument into them; the command lines of the profilers.
-- scripts/benchmark_pytorch.py and the exporters drive torch and transformers.
-- The engine itself (app, src, include, tests, benchmarks) is C++ and CUDA and is not modelled.
pub mod Assets
pub mod Benchmark
pub mod Comparison
pub mod Convert
pub mod Engines
pub mod Exec
pub mod Files
pub mod Format
pub mod Json
pub mod Llama
pub mod Load
pub mod Prelude
pub mod Quantized
pub mod Result
pub mod Samples
pub mod Server
pub mod Snapshot
pub mod Tests
pub mod Tools
