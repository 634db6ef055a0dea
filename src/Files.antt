-- ===== src/Files.antt =====
-- The regular files that the scripts read and write, by path, and the file operations of pathlib
-- that they call. A file system fault (no space, no permission) is not modelled.
use tinyllama_inference_engi.Prelude.{
  ◌≡◌, refl, fun_ext, ◌++◌, Bool, true, false, Option, none, some, [], Bytes, Text, codes, same,
  same_refl, same_sound, if◌then◌else◌, arith, ◌∷◌, ℕ,
}
use tinyllama_inference_engi.Exec.{Exec}

-- A path as its text; a file system as the content at each path.
abbrev pub Files : Type 0
Files = Text → Option Bytes

unfoldable pub put : Files → Text → Bytes → Files
put fs p c q = if same p q then some c else fs q

-- `p.unlink(missing_ok=True)`
unfoldable pub unlink : Text → Files → Files
unlink p fs q = if same p q then none else fs q

-- What `os.replace` leaves, given what was found at the source path.
unfoldable pub moved : Files → Text → Text → Option Bytes → Files
moved fs p q none = fs
moved fs p q (some c) = unlink p (put fs q c)

-- `p.replace(q)` for two different paths
unfoldable pub replace : Text → Text → Files → Files
unfolding moved
replace p q fs = moved fs p q (fs p)

abbrev pub present : Option Bytes → Bool
present none = false
present (some c) = true

-- `p.is_file()`, `p.exists()`
unfoldable pub exists : Files → Text → Bool
exists fs p = present (fs p)

-- `path.with_suffix(path.suffix + ".partial")`: the suffix is at the end of the name already.
abbrev pub partial_path : Text → Text
partial_path p = p ++ codes ".partial"

-- `with p.open("wb") as output: body`: the file holds what the body wrote, also when it raises.
unfoldable pub with_open : {A : Type 0} → Text → Exec Bytes A → Exec Files A
with_open p body fs = let (r, c) = body [] in (r, put fs p c)

pub put_self : (fs : Files) (p : Text) (c : Bytes) → put fs p c p ≡ some c
unfolding put
put_self fs p c = ground (arith, same_refl p)

pub put_ne : (fs : Files) (p q : Text) (c : Bytes) → same p q ≡ false → put fs p c q ≡ fs q
unfolding put
put_ne fs p q c h = ground arith

pub unlink_self : (p : Text) (fs : Files) → unlink p fs p ≡ none
unfolding unlink
unlink_self p fs = ground (arith, same_refl p)

pub unlink_ne : (p : Text) (fs : Files) (q : Text) → same p q ≡ false → unlink p fs q ≡ fs q
unfolding unlink
unlink_ne p fs q h = ground arith

-- Making a file and removing it again is removing it.
pub unlink-put : (p : Text) (fs : Files) (c : Bytes) → unlink p (put fs p c) ≡ unlink p fs
unfolding put unlink
unlink-put p fs c = fun_ext λ q. ground arith

pub unlink-unlink : (p : Text) (fs : Files) → unlink p (unlink p fs) ≡ unlink p fs
unfolding unlink
unlink-unlink p fs = fun_ext λ q. ground arith

pub put-unlink : (p : Text) (fs : Files) (c : Bytes) → put (unlink p fs) p c ≡ put fs p c
unfolding put unlink
put-unlink p fs c = fun_ext λ q. ground arith

pub longer-ne : (p q : Text) (c : ℕ) → same (p ++ c ∷ q) p ≡ false
longer-ne [] q c = refl
longer-ne (x ∷ p) q c = ground (arith, longer-ne p q c)

pub partial_path-ne : (p : Text) → same (partial_path p) p ≡ false
partial_path-ne p = longer-ne p (codes "partial") 46

-- The rename of a fresh temporary onto its target is a write of the target.
pub replace-put :
    (t p : Text) (fs : Files) (c : Bytes)
    → same t p ≡ false
    → replace t p (put (unlink t fs) t c) ≡ put (unlink t fs) p c
unfolding replace put unlink
replace-put t p fs c h =
    rw (same_refl t, moved)
      (fun_ext λ q. ground (arith, same_sound t q, same_sound p q, same_refl t))

pub exists_some : (fs : Files) (p : Text) {c : Bytes} → fs p ≡ some c → exists fs p ≡ true
unfolding exists
exists_some fs p h = rw h refl

-- `directory / name`, for a relative name
abbrev pub join : Text → Text → Text
join directory name = directory ++ codes "/" ++ name
