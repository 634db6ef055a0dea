-- ===== src/Snapshot.antt =====
-- scripts/source_snapshot.py: which files of a source tree a snapshot holds, their records, and the
-- digest of the tree. A tree is the list of what `root.rglob("*")` finds.
pub mod Document
pub mod Excluded
pub mod Tree
pub mod Unique
pub mod Verified
use tinyllama_inference_engi.Prelude.{
  ℕ, zero, suc, ◌+◌, ◌*◌, ◌/◌, ◌%◌, Bool, true, false, ◌&&◌, ◌||◌, List, [], ◌∷◌, ◌++◌, map, ltb,
  ◌==◌, if◌then◌else◌, length, all, any, Bytes, Text, codes, same,
}
use tinyllama_inference_engi.Prelude.Sort.{lex_lt, sort_by_key}
use tinyllama_inference_engi.Result.{
  Result, Error, ok, err, value_error, unicode_error, out_of_fuel, ◌>>=◌, ◌>>◌, raise_if, or_raise,
}
use tinyllama_inference_engi.Format.Hex.{to_hex}
use tinyllama_inference_engi.Format.Utf8.{encode}
use tinyllama_inference_engi.Format.Numpy.{Hash}
use tinyllama_inference_engi.Assets.Digest.{read_chunks}
use tinyllama_inference_engi.Assets.Verify.{FileRecord}

-- `relative.parts`
abbrev pub Parts : Type 0
Parts = List Text

abbrev pub snapshot_name : Text
snapshot_name = codes ".tlie-source-snapshot.json"

abbrev pub excluded_roots : List Text
excluded_roots = codes ".cache" ∷ codes ".git" ∷ codes ".venv" ∷ codes "build" ∷ codes "models" ∷ []

abbrev pub excluded_subtrees : List Parts
excluded_subtrees =
    (codes "benchmarks" ∷ codes "profiles" ∷ [])
    ∷ (codes "benchmarks" ∷ codes "results" ∷ [])
    ∷ (codes "data" ∷ codes "generated" ∷ [])
    ∷ []

abbrev pub excluded_directory_names : List Text
excluded_directory_names =
    codes ".mypy_cache" ∷ codes ".pytest_cache" ∷ codes ".ruff_cache" ∷ codes "__pycache__" ∷ []

-- `relative.as_posix()`
unfoldable pub as_posix : Parts → Text
as_posix [] = codes "."
as_posix (part ∷ []) = part
as_posix (part ∷ next ∷ rest) = part ++ codes "/" ++ as_posix (next ∷ rest)

unfoldable pub same_parts : Parts → Parts → Bool
same_parts [] [] = true
same_parts [] (q ∷ qs) = false
same_parts (p ∷ ps) [] = false
same_parts (p ∷ ps) (q ∷ qs) = same p q && same_parts ps qs

-- `relative.parents`: every proper prefix
unfoldable pub parents : Parts → List Parts
parents [] = []
parents (p ∷ ps) = [] ∷ map (λ q. p ∷ q) (parents ps)

-- `parts[:-1]`
unfoldable pub but_last : Parts → Parts
but_last [] = []
but_last (p ∷ []) = []
but_last (p ∷ q ∷ rest) = p ∷ but_last (q ∷ rest)

-- `relative.name`
unfoldable pub name : Parts → Text
name [] = []
name (p ∷ []) = p
name (p ∷ q ∷ rest) = name (q ∷ rest)

abbrev pub one_of : List Text → Text → Bool
one_of names part = any (same part) names

-- `_is_excluded`
unfoldable pub is_excluded : Parts → Bool
unfolding as_posix same_parts parents but_last name
is_excluded [] = false
is_excluded (p ∷ ps) =
    let relative = p ∷ ps in
    one_of excluded_roots p
    || (any (one_of excluded_directory_names) (but_last relative)
        || ((same (as_posix relative) snapshot_name || same (name relative) (codes ".DS_Store"))
            || any
                (λ subtree.
                  same_parts relative subtree || any (same_parts subtree) (parents relative))
                excluded_subtrees))

-- What a path is: a symbolic link says whether its target is a directory.
pub data Node : Type 0 where
  directory special : Node
  symlink : Bool → Node
  regular : Bytes → Node

-- `path.is_dir()` follows a link.
abbrev pub is_dir : Node → Bool
is_dir directory = true
is_dir (symlink target_is_dir) = target_is_dir
is_dir special = false
is_dir (regular contents) = false

abbrev pub parts_lt : Parts → Parts → Bool
parts_lt [] [] = false
parts_lt [] (q ∷ qs) = true
parts_lt (p ∷ ps) [] = false
parts_lt (p ∷ ps) (q ∷ qs) = lex_lt p q || (same p q && parts_lt ps qs)

unfoldable pub insert_path : Parts × Node → List (Parts × Node) → List (Parts × Node)
insert_path e [] = e ∷ []
insert_path e (f ∷ rest) = if parts_lt f.0 e.0 then f ∷ insert_path e rest else e ∷ f ∷ rest

-- `sorted(root.rglob("*"))`
unfoldable pub sort_paths : List (Parts × Node) → List (Parts × Node)
unfolding insert_path
sort_paths [] = []
sort_paths (e ∷ rest) = insert_path e (sort_paths rest)

-- `records[key] = r`
unfoldable pub set_record : Text → FileRecord → List (Text × FileRecord) → List (Text × FileRecord)
set_record key r [] = (key, r) ∷ []
set_record key r ((k, s) ∷ rest) =
    let more = set_record key r rest in if same k key then (k, r) ∷ rest else (k, s) ∷ more

-- `str(size)`: a number has at most as many digits as its successor says.
unfoldable pub digits : ℕ → ℕ → Text
digits zero n = []
digits (suc fuel) n =
    let front = digits fuel (n / 10) in
    if ltb n 10 then (48 + n) ∷ [] else front ++ (48 + n % 10) ∷ []

unfoldable pub decimal : ℕ → Text
unfolding digits
decimal n = digits (suc n) n

-- `text.encode("ascii")`
abbrev pub ascii : Text → Result Bytes
ascii t = if all (λ c. ltb c 128) t then ok t else err (unicode_error "ascii")

module _ (hash : Hash) where
  open hash use {Hasher, new, update, digest}

  -- `_sha256_file`, of a file that holds `contents`
  unfoldable pub sha256_contents : Bytes → Result Text
  unfolding read_chunks
  sha256_contents contents = do
    h ← or_raise (read_chunks hash (length contents) (1024 * 1024) contents new) out_of_fuel
    ok (to_hex (digest h))

  unfoldable pub file_record : Node → Result FileRecord
  unfolding sha256_contents
  file_record (regular contents) = do
    sha ← sha256_contents contents
    ok (record { size = length contents; sha256 = sha })
  file_record _ = err (value_error "source snapshot accepts only regular files")

  -- The loop of `collect_files`
  unfoldable pub collect :
      List (Parts × Node) → List (Text × FileRecord) → Result (List (Text × FileRecord))
  unfolding file_record set_record is_excluded
  collect [] records = ok records
  collect ((relative, node) ∷ rest) records =
      let skipped = collect rest records in
      let taken : Result (List (Text × FileRecord)) = (do
        r ← file_record node
        collect rest (set_record (as_posix relative) r records)) in
      if is_excluded relative || is_dir node then skipped else taken

  unfoldable pub collect_files : List (Parts × Node) → Result (List (Text × FileRecord))
  unfolding collect sort_paths
  collect_files tree = do
    records ← collect (sort_paths tree) []
    raise_if (length records == 0) (value_error "source snapshot contains 0 files")
    ok records

  -- The loop of `tree_sha256`
  unfoldable pub update_tree : Hasher → List (Text × FileRecord) → Result Hasher
  unfolding decimal
  update_tree h [] = ok h
  update_tree h ((file, r) ∷ rest) = do
    encoded ← encode file
    let h = update h encoded
    let h = update h (0 ∷ [])
    let h = update h (decimal r.size)
    let h = update h (0 ∷ [])
    sha ← ascii r.sha256
    let h = update h sha
    let h = update h (10 ∷ [])
    update_tree h rest

  unfoldable pub tree_sha256 : List (Text × FileRecord) → Result Text
  unfolding update_tree
  tree_sha256 files = do h ← update_tree new (sort_by_key files); ok (to_hex (digest h))
