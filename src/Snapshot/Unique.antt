-- ===== src/Snapshot/Unique.antt =====
-- Two source trees that `verify_snapshot` of scripts/source_snapshot.py accepts for one document.
use tinyllama_inference_engi.Prelude.{
  ◌≡◌, sym, ap, ◌∙◌, ◌⊎◌, true, ◌||◌, not, List, Text, codes, same_sound,
}
use tinyllama_inference_engi.Prelude.Int.{pos}
use tinyllama_inference_engi.Prelude.Sort.{sort_by_key}
use tinyllama_inference_engi.Result.{
  ok, value_error, >>=-eq-ok, raise_if, raise_if-eq-ok, not-false, ok-injective,
}
use tinyllama_inference_engi.Format.Numpy.{Hash}
use tinyllama_inference_engi.Assets.Verify.{FileRecord}
use tinyllama_inference_engi.Json.{
  Value, Fields, null, boolean, int, float, str, arr, obj, get, as_dict, is_dict,
}
use tinyllama_inference_engi.Json.Floats.{Floats}
use tinyllama_inference_engi.Json.Equal.{eq_value, fields_of}
use tinyllama_inference_engi.Snapshot.{Parts, Node, collect_files, tree_sha256}
use tinyllama_inference_engi.Snapshot.Document.{verify_snapshot, files_json, empty_fields}
use tinyllama_inference_engi.Snapshot.Tree.{Lines, Collision, tree_sha256-determines}

module _ (fl : Floats) where
  open fl use {F}

  eq_value_str : (v : Value F) (t : Text) → eq_value fl v (str t) ≡ true → v ≡ str t
  unfolding eq_value
  eq_value_str null t h = cc
  eq_value_str (boolean b) t h = cc
  eq_value_str (int n) t h = cc
  eq_value_str (float x) t h = cc
  eq_value_str (str s) t h = ap str (same_sound s t h)
  eq_value_str (arr vs) t h = cc
  eq_value_str (obj d) t h = cc

  module _ (hash : Hash) where
    -- What an accepted tree has in the document
    record Accepted (document : Value F) (tree : List (Parts × Node)) : Type 0 where
      d : Fields F
      files : List (Text × FileRecord)
      digest : Text
      is_document : as_dict document ≡ ok d
      collected : collect_files hash tree ≡ ok files
      digested : tree_sha256 hash files ≡ ok digest
      recorded : get (codes "tree_sha256") d ≡ str digest

    verify_snapshot-Accepted :
        (document : Value F) (tree : List (Parts × Node)) (e : Fields F)
        → verify_snapshot fl hash document tree ≡ ok e
        → Accepted document tree
    unfolding verify_snapshot
    verify_snapshot-Accepted document tree e h =
        let (d, hd, h1) = >>=-eq-ok (as_dict document) _ h in
        let (u1, schema, h2) =
          >>=-eq-ok
            (raise_if (not (eq_value fl (get (codes "schema_version") d) (int (pos 1))))
              (value_error "unsupported source snapshot schema"))
            _ h1 in
        let expected : Value F = get (codes "files") d in
        let (u2, listed, h3) =
          >>=-eq-ok
            (raise_if (not (is_dict expected) || empty_fields (fields_of expected))
              (value_error "source snapshot contains 0 file records"))
            _ h2 in
        let (files, hf, h4) = >>=-eq-ok (collect_files hash tree) _ h3 in
        let (u3, equal, h5) =
          >>=-eq-ok
            (raise_if (not (eq_value fl (obj (files_json files)) expected))
              (value_error "source mirror differs from the Mac snapshot"))
            _ h4 in
        let (digest, ht, h6) = >>=-eq-ok (tree_sha256 hash files) _ h5 in
        let (u4, same_tree, h7) =
          >>=-eq-ok
            (raise_if (not (eq_value fl (get (codes "tree_sha256") d) (str digest)))
              (value_error "source snapshot tree SHA-256 is invalid"))
            _ h6 in
        record {
          d = d;
          files = files;
          digest = digest;
          is_document = hd;
          collected = hf;
          digested = ht;
          recorded = eq_value_str _ digest (not-false _ (raise_if-eq-ok _ _ same_tree));
        }

    -- Two trees that are accepted for one document have the same names, sizes and digests of files,
    -- or else the lines of their two sets of records are different byte strings with one SHA-256. No
    -- name may hold a NUL, and no recorded digest a line feed.
    pub verify_snapshot_determines :
        (document : Value F) (one other : List (Parts × Node)) (d e : Fields F)
        → (fs gs : List (Text × FileRecord)) → verify_snapshot fl hash document one ≡ ok d
        → verify_snapshot fl hash document other ≡ ok e
        → collect_files hash one ≡ ok fs
        → collect_files hash other ≡ ok gs
        → Lines fs
        → Lines gs
        → (sort_by_key fs ≡ sort_by_key gs) ⊎ Collision hash fs gs
    verify_snapshot_determines document one other d e fs gs h k hf hg lf lg =
        let a = verify_snapshot-Accepted document one d h in
        let b = verify_snapshot-Accepted document other e k in
        let same_document : a.d ≡ b.d = ok-injective (sym a.is_document ∙ b.is_document) in
        let left : fs ≡ a.files = ok-injective (sym hf ∙ a.collected) in
        let right : gs ≡ b.files = ok-injective (sym hg ∙ b.collected) in
        let said : Value F = str a.digest in
        let also : Value F = str b.digest in
        let digests : said ≡ also =
          sym a.recorded ∙ ap (get (codes "tree_sha256")) same_document ∙ b.recorded in
        let text : a.digest ≡ b.digest = cc in
        tree_sha256-determines hash fs gs b.digest lf lg
          (ap (tree_sha256 hash) left ∙ a.digested ∙ ap ok text)
          (ap (tree_sha256 hash) right ∙ b.digested)
