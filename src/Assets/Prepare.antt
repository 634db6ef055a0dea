-- ===== src/Assets/Prepare.antt =====
-- `main` of scripts/prepare_model.py, after its arguments are parsed and the manifest is loaded.
use mathlib.Core.Path.{subst}
use tinyllama_inference_engi.Prelude.{
  ◌≡◌, refl, sym, ◌∙◌, inl, inr, Bool, false, List, [], ◌∷◌, ◌++◌, if◌then◌else◌, Text, codes, same,
}
use tinyllama_inference_engi.Result.{Result, ok, err, value_error, Result-cases}
use tinyllama_inference_engi.Exec.{Exec, pure, lift, gets, ◌>>=◌, ◌>>◌}
use tinyllama_inference_engi.Files.{Files, partial_path, join}
use tinyllama_inference_engi.Format.Numpy.{Hash}
use tinyllama_inference_engi.Assets.Verify.{FileRecord, verify_file, IsPinned, verify_file_iff}
use tinyllama_inference_engi.Assets.Download.{Response, download_file, download_file_others}

-- The fields of `ModelManifest` that are read here.
pub record ModelManifest : Type 0 where
  pub model_id : Text
  pub revision : Text
  pub files : List (Text × FileRecord)

unfoldable pub keep_file :
    Text × FileRecord → Result (List (Text × FileRecord)) → Result (List (Text × FileRecord))
keep_file f (ok fs) = ok (f ∷ fs)
keep_file f (err e) = err e

-- `selected.remove("model.safetensors")`, with the records kept beside the names
unfoldable pub remove_file : Text → List (Text × FileRecord) → Result (List (Text × FileRecord))
unfolding keep_file
remove_file name [] = err (value_error "list.remove(x): x not in list")
remove_file name ((n, r) ∷ rest) =
    let more = keep_file (n, r) (remove_file name rest) in if same n name then ok rest else more

unfoldable pub selected_files : Bool → ModelManifest → Result (List (Text × FileRecord))
unfolding remove_file
selected_files include_weights manifest =
    if include_weights
    then ok manifest.files
    else remove_file (codes "model.safetensors") manifest.files

unfoldable pub base_url : ModelManifest → Text
base_url manifest =
    codes "https://huggingface.co/" ++ manifest.model_id ++ codes "/resolve/" ++ manifest.revision

-- No file of the list is `path` or has `path` for its temporary.
abbrev pub Apart : Text → Text → List (Text × FileRecord) → Type 0
Apart output path [] = Unit {0}
Apart output path ((filename, _) ∷ rest) =
    (same (join output filename) path ≡ false)
    × (same (partial_path (join output filename)) path ≡ false)
    × Apart output path rest

abbrev pub AllApart : Text → List (Text × FileRecord) → Type 0
AllApart output [] = Unit {0}
AllApart output ((filename, _) ∷ rest) =
    Apart output (join output filename) rest × AllApart output rest

module _ (hash : Hash) (network : Text → Response) where
  unfoldable pub prepare_files : Text → Text → List (Text × FileRecord) → Exec Files (Unit {0})
  prepare_files url output [] = pure tt
  prepare_files url output ((filename, r) ∷ rest) = do
    let destination = join output filename
    download_file hash destination r (network (url ++ codes "/" ++ filename))
    fs ← gets (λ fs. fs)
    lift (verify_file hash fs destination r)
    prepare_files url output rest

  unfoldable pub prepare : Bool → Text → ModelManifest → Exec Files (Unit {0})
  unfolding selected_files base_url prepare_files
  prepare include_weights output manifest = do
    selected ← lift (selected_files include_weights manifest)
    prepare_files (base_url manifest) output selected

  prepare_files_others :
      (url output path : Text) (files : List (Text × FileRecord)) (fs : Files)
      → Apart output path files
      → (prepare_files url output files fs).1 path ≡ fs path
  unfolding prepare_files
  prepare_files_others url output path [] fs h = refl
  prepare_files_others url output path ((filename, r) ∷ rest) fs (a, b, h) =
      let destination : Text = join output filename in
      let response : Response = network (url ++ codes "/" ++ filename) in
      let fs' : Files = (download_file hash destination r response fs).1 in
      let kept : fs' path ≡ fs path =
        download_file_others hash destination r response fs path a b in
      let later : (prepare_files url output rest fs').1 path ≡ fs' path =
        prepare_files_others url output path rest fs' h in
      elim (Result-cases (download_file hash destination r response fs).0) [
        | inr (x, e) ↦ rw e kept
        | inl (_, e) ↦ elim (Result-cases (verify_file hash fs' destination r)) [
          | inr (x, v) ↦ rw (e, v) kept
          | inl (_, v) ↦ rw (e, v) (later ∙ kept)
        ]
      ]

  -- all files pinned in the final file system
  abbrev pub AllPinned : Text → Files → List (Text × FileRecord) → Type 0
  AllPinned output fs [] = Unit {0}
  AllPinned output fs ((filename, r) ∷ rest) =
      IsPinned hash fs (join output filename) r × AllPinned output fs rest

  prepare_files-AllPinned :
      (url output : Text) (files : List (Text × FileRecord)) (fs : Files)
      → AllApart output files
      → (prepare_files url output files fs).0 ≡ ok tt
      → AllPinned output (prepare_files url output files fs).1 files
  unfolding prepare_files
  prepare_files-AllPinned url output [] fs h e = tt
  prepare_files-AllPinned url output ((filename, r) ∷ rest) fs (a, h) e =
      let destination : Text = join output filename in
      let response : Response = network (url ++ codes "/" ++ filename) in
      let fs' : Files = (download_file hash destination r response fs).1 in
      elim (Result-cases (download_file hash destination r response fs).0) [
        | inr (x, d) ↦ cc (rw d at e)
        | inl (_, d) ↦ elim (Result-cases (verify_file hash fs' destination r)) [
          | inr (x, v) ↦ cc (rw (d, v) at e)
          | inl (_, v) ↦
              let e' : (prepare_files url output rest fs').0 ≡ ok tt = (rw (d, v) at e) in
              let here : IsPinned hash fs' destination r =
                (verify_file_iff hash fs' destination r).0 v in
              let same_file : (prepare_files url output rest fs').1 destination ≡ fs' destination =
                prepare_files_others url output destination rest fs' a in
              let run : prepare_files url output ((filename, r) ∷ rest) fs
                  ≡ prepare_files url output rest fs' =
                rw (d, v) refl in
              subst (λ (o : Result (Unit {0}) × Files). AllPinned output o.1 ((filename, r) ∷ rest))
                (sym run)
                (
                  record {
                    contents = here.contents;
                    found = same_file ∙ here.found;
                    sized = here.sized;
                    digested = here.digested;
                  },
                  prepare_files-AllPinned url output rest fs' h e',
                )
        ]
      ]

  -- If the preparation returns, every selected file is in the output directory with the size and
  -- SHA-256 of the manifest, provided that no file's path is another's, or another's temporary.
  pub prepare-AllPinned :
      (include_weights : Bool) (output : Text) (manifest : ModelManifest) (fs : Files)
      → (selected : List (Text × FileRecord))
      → selected_files include_weights manifest ≡ ok selected
      → AllApart output selected
      → (prepare include_weights output manifest fs).0 ≡ ok tt
      → AllPinned output (prepare include_weights output manifest fs).1 selected
  unfolding prepare
  prepare-AllPinned include_weights output manifest fs selected s apart h =
      rw s (prepare_files-AllPinned (base_url manifest) output selected fs apart (rw s at h))
