-- ===== src/Snapshot/Document.antt =====
-- `git_metadata`, `create_snapshot` and `verify_snapshot` of scripts/source_snapshot.py. The
-- outcome of the two git processes, the time and the name of the root are arguments.
use tinyllama_inference_engi.Prelude.{
  Bool, true, false, ◌&&◌, ◌||◌, not, List, [], ◌∷◌, ◌==◌, if◌then◌else◌, length, Text, codes,
}
use tinyllama_inference_engi.Prelude.Strings.{strip}
use tinyllama_inference_engi.Prelude.Int.{ℤ, pos, eqb_ℤ}
use tinyllama_inference_engi.Result.{Result, ok, value_error, ◌>>=◌, ◌>>◌, raise_if}
use tinyllama_inference_engi.Format.Numpy.{Hash}
use tinyllama_inference_engi.Assets.Verify.{FileRecord}
use tinyllama_inference_engi.Json.{
  Value, Fields, null, boolean, int, str, obj, end, field, get, as_dict, is_dict, is_bool, is_str,
}
use tinyllama_inference_engi.Json.Floats.{Floats}
use tinyllama_inference_engi.Json.Equal.{eq_value, eq_fields, is_null, fields_of}
use tinyllama_inference_engi.Snapshot.{Parts, Node, collect_files, tree_sha256}

-- A finished process: what `subprocess.run` returns of it.
pub record Completed : Type 0 where
  pub returncode : ℤ
  pub stdout : Text

abbrev pub empty_fields : {F : Type 0} → Fields F → Bool
empty_fields end = true
empty_fields (field k v d) = false

-- `len(commit) == 40`, of a text
abbrev pub forty : {F : Type 0} → Value F → Bool
forty (str commit) = length commit == 40
forty _ = false

module _ {F : Type 0} where
  unfoldable pub git_metadata : Completed → Completed → Fields F
  unfolding strip
  git_metadata head status =
      field (codes "commit")
        (if eqb_ℤ head.returncode (pos 0) then str (strip head.stdout) else null)
        (field (codes "working_tree_dirty")
          (boolean
            (not (eqb_ℤ status.returncode (pos 0)) || not (length (strip status.stdout) == 0)))
          end)

  abbrev pub record_json : FileRecord → Value F
  record_json r =
      obj (field (codes "size") (int (pos r.size)) (field (codes "sha256") (str r.sha256) end))

  -- The records as the document holds them
  abbrev pub files_json : List (Text × FileRecord) → Fields F
  files_json [] = end
  files_json ((file, r) ∷ rest) = field file (record_json r) (files_json rest)

  module _ (hash : Hash) where
    unfoldable pub create_snapshot :
        Text → Text → Completed → Completed → List (Parts × Node) → Result (Fields F)
    unfolding git_metadata
    create_snapshot generated_at root_name head status tree = do
      files ← collect_files hash tree
      tree_digest ← tree_sha256 hash files
      ok (
          field (codes "schema_version") (int (pos 1)) (
            field (codes "generated_at_utc") (str generated_at) (
              field (codes "source_root_name") (str root_name) (
                field (codes "git") (obj (git_metadata head status)) (
                  field (codes "tree_sha256") (str tree_digest)
                    (field (codes "files") (obj (files_json files)) end))))))

module _ (fl : Floats) (hash : Hash) where
  open fl use {F}

  unfoldable pub verify_snapshot : Value F → List (Parts × Node) → Result (Fields F)
  unfolding fields_of is_null eq_value eq_fields
  verify_snapshot document tree = do
    d ← as_dict document
    raise_if (not (eq_value fl (get (codes "schema_version") d) (int (pos 1))))
        (value_error "unsupported source snapshot schema")
    let expected_files = get (codes "files") d
    raise_if (not (is_dict expected_files) || empty_fields (fields_of expected_files))
        (value_error "source snapshot contains 0 file records")
    actual_files ← collect_files hash tree
    raise_if (not (eq_value fl (obj (files_json actual_files)) expected_files))
        (value_error "source mirror differs from the Mac snapshot")
    actual_tree ← tree_sha256 hash actual_files
    raise_if (not (eq_value fl (get (codes "tree_sha256") d) (str actual_tree)))
        (value_error "source snapshot tree SHA-256 is invalid")
    let git = get (codes "git") d
    raise_if (not (is_dict git) || not (is_bool (get (codes "working_tree_dirty") (fields_of git))))
        (value_error "source snapshot Git metadata is invalid")
    let commit = get (codes "commit") (fields_of git)
    raise_if (not (is_null commit) && (not (is_str commit) || not (forty commit)))
        (value_error "source snapshot Git commit is invalid")
    ok d
