-- ===== src/Tools/Wsl.antt =====
-- scripts/wsl_cuda_env.py: the environment of a CUDA tool. What the machine holds is an argument.
use tinyllama_inference_engi.Prelude.{
  ◌≡◌, refl, sym, ap, ◌∙◌, ◌⊎◌, inl, inr, Bool, true, false, not, Option, none, some, List, [], ◌∷◌,
  ◌++◌, append_assoc, if◌then◌else◌, Bool-cases, Text, codes, same, same_refl,
}
use mathlib.Core.Path.{subst}
use tinyllama_inference_engi.Prelude.Strings.{contains, join_with}
use tinyllama_inference_engi.Prelude.Sort.{sort_texts}
use tinyllama_inference_engi.Result.{
  Result, ok, err, runtime_error, ◌>>=◌, ◌>>◌, raise_if, or_raise, >>=-eq-ok, ok-injective,
}
use tinyllama_inference_engi.Server.Polling.{is_os_error}
use tinyllama_inference_engi.Benchmark.Gpu.{distinct}

abbrev pub Environment : Type 0
Environment = List (Text × Text)

unfoldable pub get_variable : Text → Environment → Option Text
get_variable key [] = none
get_variable key ((k, v) ∷ rest) =
    let more = get_variable key rest in if same k key then some v else more

unfoldable pub set_variable : Text → Text → Environment → Environment
set_variable key v [] = (key, v) ∷ []
set_variable key v ((k, w) ∷ rest) =
    let more = set_variable key v rest in if same k key then (k, v) ∷ rest else (k, w) ∷ more

pub record CudaToolEnvironment : Type 0 where
  pub process_env : Environment
  pub target_prefix : List Text
  pub audit_library : Option Text

abbrev pub wrap_target : CudaToolEnvironment → List Text → List Text
wrap_target environment command = environment.target_prefix ++ command

-- What the code asks the machine: the kernel's release, the driver files, the compiler and its run
pub record Machine : Type 0 where
  pub release : Result Text
  pub lower : Text → Text
  pub wsl_libcuda : Bool
  pub driver_directories : List Text
  pub linux_libcuda : Bool
  pub same_file : Result Bool
  pub compiler : Option Text
  pub audit_source : Bool
  pub compile : Result (Unit {0})
  pub resolve : Text → Text

-- `except OSError`
abbrev pub unless_os_error : Bool → Result Bool → Result Bool
unless_os_error default (ok b) = ok b
unless_os_error default (err e) = if is_os_error e then ok default else err e

unfoldable pub is_wsl : Machine → Result Bool
unfolding contains
is_wsl machine =
    unless_os_error false
      (do text ← machine.release; ok (contains (codes "microsoft") (machine.lower text)))

unfoldable pub has_conflicting_linux_driver : Machine → Result Bool
has_conflicting_linux_driver machine =
    if not machine.linux_libcuda
    then ok false
    else unless_os_error true (do same_driver ← machine.same_file; ok (not same_driver))

abbrev pub wsl_lib_dir : Text
wsl_lib_dir = codes "/usr/lib/wsl/lib"

abbrev pub library_variable : Text
library_variable = codes "LD_LIBRARY_PATH"

-- The inherited entry, if it is there and not empty
abbrev pub inherited : Option Text → List Text
inherited none = []
inherited (some []) = []
inherited (some (c ∷ t)) = (c ∷ t) ∷ []

abbrev pub only_directory : List Text → Result Text
only_directory (directory ∷ []) = ok directory
only_directory _ = err (runtime_error "expected exactly one active WSL NVIDIA driver directory")

-- The audit module, built if a Linux driver is in the way
unfoldable pub build_audit : Machine → Text → Bool → Result (Option Text)
build_audit machine output_dir false = ok none
build_audit machine output_dir true = do
  or_raise machine.compiler
      (runtime_error "cc is required to build the WSL CUDA loader audit module")
  raise_if (not machine.audit_source) (runtime_error "WSL CUDA loader audit source is missing")
  machine.compile
  ok (some (output_dir ++ codes "/wsl_cuda_ld_audit.so"))

abbrev pub audit_assignment : Machine → Option Text → List Text
audit_assignment machine none = []
audit_assignment machine (some library) = (codes "LD_AUDIT=" ++ machine.resolve library) ∷ []

-- The steps of the preparation on WSL
unfoldable pub prepare_on_wsl : Machine → Text → Environment → Result CudaToolEnvironment
unfolding has_conflicting_linux_driver build_audit get_variable set_variable join_with sort_texts
    distinct
prepare_on_wsl machine output_dir environ = do
  raise_if (not machine.wsl_libcuda) (runtime_error "WSL CUDA loader is missing")
  directory ← only_directory (sort_texts (distinct machine.driver_directories))
  let library_path =
      join_with (codes ":")
        (directory ∷ wsl_lib_dir ∷ inherited (get_variable library_variable environ))
  conflicting ← has_conflicting_linux_driver machine
  audit_library ← build_audit machine output_dir conflicting
  ok (record {
    process_env = set_variable library_variable library_path environ;
    target_prefix =
        codes "/usr/bin/env"
        ∷ (audit_assignment machine audit_library
            ++ (codes "LD_LIBRARY_PATH=" ++ library_path) ∷ []);
    audit_library = audit_library;
  })

unfoldable pub prepare_cuda_tool_environment :
    Machine → Text → Environment → Result CudaToolEnvironment
unfolding is_wsl prepare_on_wsl
prepare_cuda_tool_environment machine output_dir environ = do
  wsl ← is_wsl machine
  if not wsl
      then ok (record { process_env = environ; target_prefix = []; audit_library = none })
      else prepare_on_wsl machine output_dir environ

get-set_variable :
    (key v : Text) (environ : Environment) → get_variable key (set_variable key v environ) ≡ some v
unfolding get_variable set_variable
get-set_variable key v [] = rw (same_refl key) refl
get-set_variable key v ((k, w) ∷ rest) = elim (Bool-cases (same k key)) [
  | inl e ↦ rw (e, e) refl
  | inr e ↦ rw (e, e) (get-set_variable key v rest)
]

-- What the environment of a tool is on WSL
pub record OnWsl (machine : Machine) (environ : Environment) (environment : CudaToolEnvironment)
    : Type 0 where
  pub directory : Text
  pub only_driver : sort_texts (distinct machine.driver_directories) ≡ directory ∷ []
  pub path : Text
  pub path_order :
      path
      ≡ join_with
          (codes ":")
          (directory ∷ wsl_lib_dir ∷ inherited (get_variable library_variable environ))
  pub exported : get_variable library_variable environment.process_env ≡ some path
  pub wrapped :
      (command : List Text)
      → wrap_target environment command
        ≡ codes "/usr/bin/env"
          ∷ (audit_assignment machine environment.audit_library
              ++ (codes "LD_LIBRARY_PATH=" ++ path) ∷ command)

only_directory-eq : (ds : List Text) (d : Text) → only_directory ds ≡ ok d → ds ≡ d ∷ []
only_directory-eq [] d h = cc
only_directory-eq (x ∷ []) d h = ap (λ y. y ∷ []) (ok-injective h)
only_directory-eq (x ∷ y ∷ rest) d h = cc

on-OnWsl :
    (machine : Machine) (output_dir : Text) (environ : Environment)
    (environment : CudaToolEnvironment)
    → prepare_on_wsl machine output_dir environ ≡ ok environment
    → OnWsl machine environ environment
unfolding prepare_on_wsl
on-OnWsl machine output_dir environ environment h =
    let (u, loader, h1) =
      >>=-eq-ok (raise_if (not machine.wsl_libcuda) (runtime_error "WSL CUDA loader is missing")) _
        h in
    let (directory, only, h2) =
      >>=-eq-ok (only_directory (sort_texts (distinct machine.driver_directories))) _ h1 in
    let (conflicting, found, h3) = >>=-eq-ok (has_conflicting_linux_driver machine) _ h2 in
    let (audit_library, built, h4) = >>=-eq-ok (build_audit machine output_dir conflicting) _ h3 in
    let path : Text =
      join_with (codes ":")
        (directory ∷ wsl_lib_dir ∷ inherited (get_variable library_variable environ)) in
    subst (OnWsl machine environ) (ok-injective h4) (record {
      directory = directory;
      only_driver = only_directory-eq _ directory only;
      path = path;
      path_order = refl;
      exported = get-set_variable library_variable path environ;
      wrapped = λ command.
          ap (λ l. codes "/usr/bin/env" ∷ l)
            (append_assoc (audit_assignment machine audit_library)
              ((codes "LD_LIBRARY_PATH=" ++ path) ∷ []) command);
    })

-- A prepared environment is the given one, with no prefix, if the machine is no WSL. On WSL there
-- is one driver directory, the library path begins with it and the directory of WSL and ends with
-- the inherited path, and the prefix passes the same path to the wrapped command.
pub prepare_cuda_tool_environment-OnWsl :
    (machine : Machine) (output_dir : Text) (environ : Environment)
    (environment : CudaToolEnvironment)
    → prepare_cuda_tool_environment machine output_dir environ ≡ ok environment
    → ((is_wsl machine ≡ ok false)
        × (environment.process_env ≡ environ)
        × (environment.target_prefix ≡ []))
      ⊎ ((is_wsl machine ≡ ok true) × OnWsl machine environ environment)
unfolding prepare_cuda_tool_environment
prepare_cuda_tool_environment-OnWsl machine output_dir environ environment h =
    let (wsl, known, h1) = >>=-eq-ok (is_wsl machine) _ h in
    elim (Bool-cases wsl) [
      | inr other ↦
          let e = ok-injective (rw other at h1) in
          inl (
            known ∙ ap ok other,
            ap CudaToolEnvironment.process_env (sym e),
            ap CudaToolEnvironment.target_prefix (sym e),
          )
      | inl on_wsl ↦
          inr (
            known ∙ ap ok on_wsl,
            on-OnWsl machine output_dir environ environment (rw on_wsl at h1),
          )
    ]
