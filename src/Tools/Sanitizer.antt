-- ===== src/Tools/Sanitizer.antt =====
-- scripts/run_cuda_memcheck.py: the command of the sanitizer and the check of its log. The three
-- regular expressions are written out as searches.
use tinyllama_inference_engi.Prelude.{
  suc, ◌≡◌, refl, sym, ap, ◌∙◌, inl, inr, Bool, true, false, ◌&&◌, ◌||◌, not, Option, none, some,
  List, [], ◌∷◌, ◌++◌, arith, ◌==◌, if◌then◌else◌, Bool-cases, ==_iff, &&_true, length, drop, All,
  drop-append, Text, codes, same,
}
use tinyllama_inference_engi.Prelude.Strings.{contains, starts_with, is_white, strip_left}
use tinyllama_inference_engi.Prelude.Int.{ℤ, pos, eqb_ℤ, eqb_ℤ_sound}
use tinyllama_inference_engi.Result.{
  Result, Error, ok, runtime_error, ◌>>◌, raise_if, >>=-eq-ok, raise_if-eq-ok, not-false,
}
use tinyllama_inference_engi.Tools.Wsl.{CudaToolEnvironment, wrap_target}

abbrev pub injection_arguments : Option Text → List Text
injection_arguments none = []
injection_arguments (some path) = codes "--injection-path" ∷ path ∷ []

unfoldable pub build_command :
    Text → CudaToolEnvironment → Text → List Text → Option Text → Text → List Text
build_command compute_sanitizer environment target target_args injection_path tool =
    compute_sanitizer
    ∷ (injection_arguments injection_path
        ++ (codes "--launch-timeout"
            ∷ codes "60"
            ∷ codes "--target-processes"
            ∷ codes "all"
            ∷ codes "--tool"
            ∷ tool
            ∷ [])
        ++ (if same tool (codes "memcheck") then codes "--leak-check" ∷ codes "full" ∷ [] else [])
        ++ (codes "--error-exitcode" ∷ codes "99" ∷ wrap_target environment (target ∷ target_args)))

unfoldable pub normalize_target_args : List Text → List Text
normalize_target_args [] = []
normalize_target_args (argument ∷ arguments) =
    if same argument (codes "--") then arguments else argument ∷ arguments

-- `(?:\s|$)` where `at_end`, and nothing else otherwise
abbrev pub ends_here : Bool → Text → Bool
ends_here false t = true
ends_here true [] = true
ends_here true (c ∷ t) = is_white c

abbrev pub begins_white : Text → Bool
begins_white [] = false
begins_white (c ∷ t) = is_white c

-- `label\s+figure` at the front of a text, for a figure that does not begin with white space
unfoldable pub summary_here : Text → Text → Bool → Text → Bool
unfolding starts_with is_white strip_left
summary_here label figure at_end t =
    let after = drop (length label) t in
    let found = strip_left after in
    starts_with label t
    && (begins_white after
        && (starts_with figure found && ends_here at_end (drop (length figure) found)))

-- `re.search`
unfoldable pub summary_in : Text → Text → Bool → Text → Bool
unfolding summary_here
summary_in label figure at_end [] = false
summary_in label figure at_end (c ∷ t) =
    summary_here label figure at_end (c ∷ t) || summary_in label figure at_end t

unfoldable pub require_clean_sanitizer : Text → Text → Result (Unit {0})
unfolding contains summary_in
require_clean_sanitizer output tool = do
  raise_if
      (contains (codes "before first instrumented API call") output
        || contains (codes "No attachable process found") output)
      (runtime_error "Compute Sanitizer did not instrument the target CUDA process")
  raise_if (contains (codes "Target application returned an error") output)
      (runtime_error "Compute Sanitizer target application returned an error")
  raise_if (contains (codes "process didn't terminate successfully") output)
      (runtime_error "Compute Sanitizer target process did not terminate successfully")
  if same tool (codes "memcheck")
      then (do
        raise_if
            (not (
              summary_in (codes "LEAK SUMMARY:") (codes "0 bytes leaked in 0 allocations") true
                output))
            (runtime_error "Compute Sanitizer did not report a zero-leak LEAK SUMMARY")
        raise_if (not (summary_in (codes "ERROR SUMMARY:") (codes "0 errors") true output))
            (runtime_error "Compute Sanitizer did not report 'ERROR SUMMARY: 0 errors'"))
      else raise_if
          (not (
            summary_in (codes "RACECHECK SUMMARY:")
              (codes "0 hazards displayed (0 errors, 0 warnings)") false output))
          (runtime_error "Compute Sanitizer did not report a clean RACECHECK SUMMARY")

-- The exit of `main`, after the process: its code if it is not zero. The code of a process that a
-- signal has killed is negative.
unfoldable pub check_run : ℤ → Text → Text → Result (Unit {0})
unfolding require_clean_sanitizer
check_run returncode output tool = do
  raise_if (not (eqb_ℤ returncode (pos 0))) (Error.system_exit "")
  require_clean_sanitizer output tool

starts_with-append : (p t : Text) → starts_with p t ≡ true → (rest : Text) × (t ≡ p ++ rest)
unfolding starts_with
starts_with-append [] t h = (t, refl)
starts_with-append (x ∷ p) [] h = absurd (omega (arith, (==_iff (suc (length p)) 0).0 h))
starts_with-append (x ∷ p) (c ∷ t) h =
    let (e, more) = &&_true (x == c) (starts_with p t) h in
    let (rest, split) = starts_with-append p t more in
    let head : x ≡ c = (==_iff x c).0 e in
    (rest, ap (λ y. y ∷ t) (sym head) ∙ ap (λ l. x ∷ l) split)

-- The leading white space, and what follows it
leading_white :
    (t : Text) → (white : Text) × (t ≡ white ++ strip_left t) × All (λ c. is_white c ≡ true) white
unfolding strip_left
leading_white [] = ([], refl, tt)
leading_white (c ∷ t) = elim (Bool-cases (is_white c)) [
  | inl e ↦
      let (white, split, all_white) = leading_white t in
      (c ∷ white, rw e (ap (λ l. c ∷ l) split), (e, all_white))
  | inr e ↦ ([], rw e refl, tt)
]

-- A text that reports a figure under a label, with white space between them
pub record Reported (label figure : Text) (output : Text) : Type 0 where
  pub before : Text
  pub white : Text
  pub after : Text
  pub parts : output ≡ before ++ (label ++ (white ++ (figure ++ after)))
  pub all_white : All (λ c. is_white c ≡ true) white

drop_prefix : (p rest : Text) → drop (length p) (p ++ rest) ≡ rest
drop_prefix p rest = drop-append p rest (length p) refl

summary_here-Reported :
    (label figure : Text) (at_end : Bool) (t : Text)
    → summary_here label figure at_end t ≡ true
    → Reported label figure t
unfolding summary_here
summary_here-Reported label figure at_end t h =
    let remainder : Text = drop (length label) t in
    let (begins, h1) = &&_true (starts_with label t) _ h in
    let (separated, h2) = &&_true (begins_white remainder) _ h1 in
    let (figured, ended) =
      &&_true (starts_with figure (strip_left remainder))
        (ends_here at_end (drop (length figure) (strip_left remainder))) h2 in
    let (rest, split) = starts_with-append label t begins in
    let dropped : drop (length label) t ≡ rest =
      ap (drop (length label)) split ∙ drop_prefix label rest in
    let (white, spaced, all_white) = leading_white rest in
    let (after, found) =
      starts_with-append figure (strip_left rest)
        (ap (λ l. starts_with figure (strip_left l)) (sym dropped) ∙ figured) in
    record {
      before = [];
      white = white;
      after = after;
      parts = split ∙ ap (λ l. label ++ l) (spaced ∙ ap (λ l. white ++ l) found);
      all_white = all_white;
    }

summary_in-Reported :
    (label figure : Text) (at_end : Bool) (t : Text)
    → summary_in label figure at_end t ≡ true
    → Reported label figure t
unfolding summary_in
summary_in-Reported label figure at_end [] h = cc
summary_in-Reported label figure at_end (c ∷ t) h =
    elim (Bool-cases (summary_here label figure at_end (c ∷ t))) [
      | inl e ↦ summary_here-Reported label figure at_end (c ∷ t) e
      | inr e ↦
          let r = summary_in-Reported label figure at_end t (rw e at h) in
          record {
            before = c ∷ Reported.before r;
            white = Reported.white r;
            after = Reported.after r;
            parts = ap (λ l. c ∷ l) (Reported.parts r);
            all_white = Reported.all_white r;
          }
    ]

-- A run of memcheck is accepted only if the process has returned 0, and so was not killed by a
-- signal, and its log reports no leaked byte and no error.
pub check_run-Reported :
    (returncode : ℤ) (output : Text)
    → check_run returncode output (codes "memcheck") ≡ ok tt
    → (returncode ≡ pos 0)
      × Reported (codes "LEAK SUMMARY:") (codes "0 bytes leaked in 0 allocations") output
      × Reported (codes "ERROR SUMMARY:") (codes "0 errors") output
unfolding check_run require_clean_sanitizer
check_run-Reported returncode output h =
    let (u, zero_code, h1) =
      >>=-eq-ok (raise_if (not (eqb_ℤ returncode (pos 0))) (Error.system_exit "")) _ h in
    let (u1, attached, h2) =
      >>=-eq-ok
        (raise_if
          (contains (codes "before first instrumented API call") output
            || contains (codes "No attachable process found") output)
          (runtime_error "Compute Sanitizer did not instrument the target CUDA process"))
        _ h1 in
    let (u2, returned, h3) =
      >>=-eq-ok
        (raise_if (contains (codes "Target application returned an error") output)
          (runtime_error "Compute Sanitizer target application returned an error"))
        _ h2 in
    let (u3, terminated, h4) =
      >>=-eq-ok
        (raise_if (contains (codes "process didn't terminate successfully") output)
          (runtime_error "Compute Sanitizer target process did not terminate successfully"))
        _ h3 in
    let (u4, leaks, h5) =
      >>=-eq-ok
        (raise_if
          (not (
            summary_in (codes "LEAK SUMMARY:") (codes "0 bytes leaked in 0 allocations") true
              output))
          (runtime_error "Compute Sanitizer did not report a zero-leak LEAK SUMMARY"))
        _ h4 in
    (
      eqb_ℤ_sound returncode (pos 0) (not-false _ (raise_if-eq-ok _ _ zero_code)),
      summary_in-Reported (codes "LEAK SUMMARY:") (codes "0 bytes leaked in 0 allocations") true
          output (not-false _ (raise_if-eq-ok _ _ leaks)),
      summary_in-Reported (codes "ERROR SUMMARY:") (codes "0 errors") true output
          (not-false _ (raise_if-eq-ok _ _ h5)),
    )
