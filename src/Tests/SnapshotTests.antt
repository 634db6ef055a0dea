-- ===== src/Tests/SnapshotTests.antt =====
-- Runs of the source snapshot.
use tinyllama_inference_engi.Prelude.{
  ℕ, ◌≡◌, refl, ◌⊎◌, inl, inr, true, false, List, [], ◌∷◌, ◌++◌, arith, Text, codes,
}
use tinyllama_inference_engi.Prelude.Int.{pos}
use tinyllama_inference_engi.Prelude.Sort.{sort_by_key, insert_by_key}
use tinyllama_inference_engi.Prelude.Strings.{strip, strip_left, strip_right}
use tinyllama_inference_engi.Result.{Result, ok, err, value_error}
use tinyllama_inference_engi.Format.Hex.{to_hex}
use tinyllama_inference_engi.Format.Utf8.{encode}
use tinyllama_inference_engi.Samples.{sample_hash, sample_sha256, sample_floats}
use tinyllama_inference_engi.Assets.Verify.{FileRecord}
use tinyllama_inference_engi.Assets.Digest.{read_chunks}
use tinyllama_inference_engi.Json.{Fields, obj, end}
use tinyllama_inference_engi.Snapshot.{
  Parts, Node, regular, directory, symlink, is_excluded, collect_files, collect, sort_paths,
  insert_path, set_record, as_posix, file_record, sha256_contents, tree_sha256, update_tree,
  decimal, digits, same_parts, parents, but_last, name,
}
use tinyllama_inference_engi.Snapshot.Excluded.{is_excluded-Below}
use tinyllama_inference_engi.Snapshot.Document.{
  Completed, create_snapshot, verify_snapshot, git_metadata,
}
use tinyllama_inference_engi.Snapshot.Tree.{Lines, Collision, tree_sha256-determines}
use tinyllama_inference_engi.Snapshot.Unique.{verify_snapshot_determines}
use tinyllama_inference_engi.Snapshot.Verified.{create-verify}

abbrev readme : Parts
readme = codes "README.md" ∷ []

abbrev bytecode : Parts
bytecode = codes "scripts" ∷ codes "__pycache__" ∷ codes "a.pyc" ∷ []

abbrev tree : List (Parts × Node)
tree =
    (codes "scripts" ∷ [], directory)
    ∷ (readme, regular (1 ∷ 2 ∷ []))
    ∷ (bytecode, regular (3 ∷ []))
    ∷ (codes "scripts" ∷ codes "a.py" ∷ [], regular (4 ∷ []))
    ∷ []

is_excluded-Below_example : is_excluded bytecode ≡ true
is_excluded-Below_example =
    is_excluded-Below bytecode
      (inr (inl (codes "scripts" ∷ [], codes "__pycache__", codes "a.pyc", [], refl, refl)))

readme_kept : is_excluded readme ≡ false
unfolding is_excluded as_posix same_parts parents but_last name
readme_kept = refl

abbrev records : List (Text × FileRecord)
records =
    (codes "README.md", record { sha256 = to_hex (sample_sha256 (1 ∷ 2 ∷ [])); size = 2 })
    ∷ (codes "scripts/a.py", record { sha256 = to_hex (sample_sha256 (4 ∷ [])); size = 1 })
    ∷ []

collected : collect_files sample_hash tree ≡ ok records
unfolding collect_files collect sort_paths insert_path set_record as_posix file_record
    sha256_contents is_excluded same_parts parents but_last name read_chunks
collected = refl

-- A link to a directory is passed over; a link to a file is refused.
link_refused :
    collect_files sample_hash
      ((codes "lib" ∷ [], symlink true) ∷ (codes "now" ∷ [], symlink false) ∷ [])
    ≡ err (value_error "source snapshot accepts only regular files")
unfolding collect_files collect sort_paths insert_path set_record as_posix file_record
    sha256_contents is_excluded same_parts parents but_last name
link_refused = refl

abbrev short_records : List (Text × FileRecord)
short_records =
    (codes "b", record { sha256 = codes "0f"; size = 12 })
    ∷ (codes "a", record { sha256 = codes "0f"; size = 0 })
    ∷ []

abbrev sorted_records : List (Text × FileRecord)
sorted_records =
    (codes "a", record { sha256 = codes "0f"; size = 0 })
    ∷ (codes "b", record { sha256 = codes "0f"; size = 12 })
    ∷ []

abbrev short_digest : Text
short_digest = to_hex (
    sample_sha256 (
      codes "a"
      ++ 0 ∷ codes "0"
      ++ 0 ∷ codes "0f"
      ++ 10 ∷ codes "b"
      ++ 0 ∷ codes "12"
      ++ 0 ∷ codes "0f"
      ++ 10 ∷ []))

short_run : tree_sha256 sample_hash short_records ≡ ok short_digest
unfolding tree_sha256 update_tree decimal digits encode sort_by_key insert_by_key
short_run = refl

sorted_run : tree_sha256 sample_hash sorted_records ≡ ok short_digest
unfolding tree_sha256 update_tree decimal digits encode sort_by_key insert_by_key
sorted_run = refl

short_Lines : Lines short_records
short_Lines = ground arith

sorted_Lines : Lines sorted_records
sorted_Lines = ground arith

tree_sha256-determines_example :
    (sort_by_key short_records ≡ sort_by_key sorted_records)
    ⊎ Collision sample_hash short_records sorted_records
tree_sha256-determines_example =
    tree_sha256-determines sample_hash short_records sorted_records short_digest short_Lines
      sorted_Lines short_run sorted_run

abbrev head : Completed
head = record { returncode = pos 128; stdout = [] }

abbrev status : Completed
status = record { returncode = pos 0; stdout = codes " M README.md" }

abbrev or_end : Result (Fields ℕ) → Fields ℕ
or_end (ok d) = d
or_end (err e) = end

abbrev document : Fields ℕ
document = or_end (create_snapshot sample_hash (codes "now") (codes "tlie") head status tree)

created : create_snapshot sample_hash (codes "now") (codes "tlie") head status tree ≡ ok document
unfolding create_snapshot git_metadata strip strip_left strip_right tree_sha256 update_tree decimal
    digits encode sort_by_key insert_by_key collect_files collect sort_paths insert_path set_record
    as_posix file_record sha256_contents is_excluded same_parts parents but_last name read_chunks
    to_hex sample_sha256
created = refl

create-verify_example : verify_snapshot sample_floats sample_hash (obj document) tree ≡ ok document
create-verify_example =
    create-verify sample_floats sample_hash (codes "now") (codes "tlie") head status tree document
      (inl refl) created

-- The same tree, found in another order
abbrev shuffled : List (Parts × Node)
shuffled =
    (codes "scripts" ∷ codes "a.py" ∷ [], regular (4 ∷ [])) ∷ (readme, regular (1 ∷ 2 ∷ [])) ∷ []

shuffled_collected : collect_files sample_hash shuffled ≡ ok records
unfolding collect_files collect sort_paths insert_path set_record as_posix file_record
    sha256_contents is_excluded same_parts parents but_last name read_chunks
shuffled_collected = refl

shuffled_created :
    create_snapshot sample_hash (codes "now") (codes "tlie") head status shuffled ≡ ok document
unfolding create_snapshot git_metadata strip strip_left strip_right tree_sha256 update_tree decimal
    digits encode sort_by_key insert_by_key collect_files collect sort_paths insert_path set_record
    as_posix file_record sha256_contents is_excluded same_parts parents but_last name read_chunks
    to_hex sample_sha256
shuffled_created = refl

shuffled_ok : verify_snapshot sample_floats sample_hash (obj document) shuffled ≡ ok document
shuffled_ok =
    create-verify sample_floats sample_hash (codes "now") (codes "tlie") head status shuffled
      document (inl refl) shuffled_created

tree_ok : verify_snapshot sample_floats sample_hash (obj document) tree ≡ ok document
tree_ok =
    create-verify sample_floats sample_hash (codes "now") (codes "tlie") head status tree document
      (inl refl) created

records-Lines : Lines records
unfolding to_hex sample_sha256
records-Lines = ground arith

verify_snapshot_determines_example :
    (sort_by_key records ≡ sort_by_key records) ⊎ Collision sample_hash records records
verify_snapshot_determines_example =
    verify_snapshot_determines sample_floats sample_hash (obj document) tree shuffled document
      document records records tree_ok shuffled_ok collected shuffled_collected records-Lines
      records-Lines
