-- ===== src/Snapshot/Verified.antt =====
-- `verify_snapshot` after `create_snapshot`, of scripts/source_snapshot.py.
use tinyllama_inference_engi.Prelude.{
  ◌≡◌, refl, ◌∙◌, ◌⊎◌, inl, inr, true, false, ◌&&◌, ◌||◌, not, List, [], ◌∷◌, arith, ◌==◌,
  Bool-cases, ==_refl, length, Text, codes, same, same_refl, same_comm,
}
use tinyllama_inference_engi.Prelude.Strings.{strip}
use tinyllama_inference_engi.Prelude.Int.{pos, eqb_ℤ, eqb_ℤ_refl}
use tinyllama_inference_engi.Result.{ok, >>=-eq-ok, ok-injective}
use tinyllama_inference_engi.Format.Numpy.{Hash}
use tinyllama_inference_engi.Assets.Verify.{FileRecord}
use tinyllama_inference_engi.Json.{Value, Fields, obj, field, get, is_str}
use tinyllama_inference_engi.Json.Floats.{Floats}
use tinyllama_inference_engi.Json.Equal.{eq_value, eq_fields, is_null, fields_of}
use tinyllama_inference_engi.Snapshot.{
  Parts, Node, collect, collect_files, tree_sha256, set_record, is_excluded, is_dir, file_record,
  as_posix, sort_paths,
}
use tinyllama_inference_engi.Snapshot.Document.{
  Completed, files_json, record_json, create_snapshot, verify_snapshot, git_metadata, forty,
  empty_fields,
}

-- No two records have one name.
abbrev Fresh : Text → List (Text × FileRecord) → Type 0
Fresh key [] = Unit {0}
Fresh key ((k, r) ∷ rest) = (same k key ≡ false) × Fresh key rest

abbrev Distinct : List (Text × FileRecord) → Type 0
Distinct [] = Unit {0}
Distinct ((k, r) ∷ rest) = Fresh k rest × Distinct rest

Fresh-set :
    (key k : Text) (r : FileRecord) (l : List (Text × FileRecord))
    → Fresh key l
    → same k key ≡ false
    → Fresh key (set_record k r l)
unfolding set_record
Fresh-set key k r [] f n = (n, tt)
Fresh-set key k r ((j, s) ∷ rest) f n = elim (Bool-cases (same j k)) [
  | inl e ↦ rw e f
  | inr e ↦ rw e (f.0, Fresh-set key k r rest f.1 n)
]

Distinct-set :
    (k : Text) (r : FileRecord) (l : List (Text × FileRecord))
    → Distinct l
    → Distinct (set_record k r l)
unfolding set_record
Distinct-set k r [] d = (tt, tt)
Distinct-set k r ((j, s) ∷ rest) d = elim (Bool-cases (same j k)) [
  | inl e ↦ rw e d
  | inr e ↦ rw e (Fresh-set j k r rest d.0 (same_comm k j ∙ e), Distinct-set k r rest d.1)
]

module _ (hash : Hash) where
  collect-Distinct :
      (tree : List (Parts × Node)) (records files : List (Text × FileRecord))
      → Distinct records
      → collect hash tree records ≡ ok files
      → Distinct files
  unfolding collect
  collect-Distinct [] records files d e = let eq : records ≡ files = cc in rw (← eq) d
  collect-Distinct ((relative, node) ∷ rest) records files d e =
      elim (Bool-cases (is_excluded relative || is_dir node)) [
        | inl skip ↦ collect-Distinct rest records files d (rw skip at e)
        | inr keep ↦
            let (r, hr, e') = >>=-eq-ok (file_record hash node) _ (rw keep at e) in
            collect-Distinct rest (set_record (as_posix relative) r records) files
              (Distinct-set (as_posix relative) r records d) e'
      ]

  collect_files_sound :
      (tree : List (Parts × Node)) (files : List (Text × FileRecord))
      → collect_files hash tree ≡ ok files
      → Distinct files × ((length files == 0) ≡ false)
  unfolding collect_files
  collect_files_sound tree files e =
      let (records, hc, e') = >>=-eq-ok (collect hash (sort_paths tree) []) _ e in
      elim (Bool-cases (length records == 0)) [
        | inl none_found ↦ cc (rw none_found at e')
        | inr found ↦
            let eq : records ≡ files = cc (rw found at e') in
            rw (← eq) (collect-Distinct (sort_paths tree) [] records tt hc, found)
      ]

module _ (fl : Floats) where
  open fl use {F}

  eq_fields-Fresh :
      (d : List (Text × FileRecord)) (e : Fields F) (k : Text) (v : Value F)
      → Fresh k d
      → eq_fields fl (files_json d) e ≡ true
      → eq_fields fl (files_json d) (field k v e) ≡ true
  unfolding eq_fields
  eq_fields-Fresh [] e k v f h = refl
  eq_fields-Fresh ((j, r) ∷ d) e k v f h =
      rw (same_comm k j ∙ f.0) (ground (arith, eq_fields-Fresh d e k v f.1))

  eq_record : (r : FileRecord) → eq_value fl (record_json r) (record_json r) ≡ true
  unfolding eq_value fields_of
  eq_record r = rw (eqb_ℤ_refl, same_refl r.sha256) refl

  eq_files :
      (files : List (Text × FileRecord))
      → Distinct files
      → eq_fields fl (files_json files) (files_json files) ≡ true
  unfolding eq_fields
  eq_files [] d = refl
  eq_files ((k, r) ∷ files) d =
      rw (same_refl k, eq_record r)
        (eq_fields-Fresh files (files_json files) k (record_json r) d.0 (eq_files files d.1))

  eq_document :
      (files : List (Text × FileRecord))
      → Distinct files
      → eq_value fl (obj (files_json files)) (obj (files_json files)) ≡ true
  unfolding eq_value fields_of
  eq_document files d = rw (==_refl, eq_files files d) refl

  nonempty-files :
      (files : List (Text × FileRecord))
      → (length files == 0) ≡ false
      → empty_fields (files_json {F = F} files) ≡ false
  nonempty-files [] h = cc
  nonempty-files (f ∷ files) h = refl

  commit_ok :
      (head status : Completed)
      → (eqb_ℤ head.returncode (pos 0) ≡ false) ⊎ (length (strip head.stdout) ≡ 40)
      → (let commit : Value F = get (codes "commit") (git_metadata {F = F} head status) in
          not (is_null commit) && (not (is_str commit) || not (forty commit)))
        ≡ false
  unfolding git_metadata is_null
  commit_ok head status (inl failed) = rw failed refl
  commit_ok head status (inr l) = elim (Bool-cases (eqb_ℤ head.returncode (pos 0))) [
    | inl good ↦ rw (good, l) refl
    | inr failed ↦ rw failed refl
  ]

  -- A snapshot that was made of a tree is accepted for that tree, if Git named no commit or one of
  -- forty characters.
  pub create-verify :
      (hash : Hash) (generated_at root_name : Text) (head status : Completed)
      → (tree : List (Parts × Node)) (d : Fields F)
      → (eqb_ℤ head.returncode (pos 0) ≡ false) ⊎ (length (strip head.stdout) ≡ 40)
      → create_snapshot hash generated_at root_name head status tree ≡ ok d
      → verify_snapshot fl hash (obj d) tree ≡ ok d
  unfolding create_snapshot verify_snapshot
  create-verify hash generated_at root_name head status tree d commit h =
      let (files, hf, h1) = >>=-eq-ok (collect_files hash tree) _ h in
      let (digest, ht, h2) = >>=-eq-ok (tree_sha256 hash files) _ h1 in
      let document : _ ≡ d = ok-injective h2 in
      let (distinct, some_files) = collect_files_sound hash tree files hf in
      rw (← document) (
        rw
          (
            nonempty-files files some_files,
            hf,
            eq_document files distinct,
            ht,
            same_refl digest,
            commit_ok head status commit,
          )
          refl)
