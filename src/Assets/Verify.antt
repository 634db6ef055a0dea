-- ===== src/Assets/Verify.antt =====
-- `verify_file` of scripts/model_assets.py.
use tinyllama_inference_engi.Prelude.{
  ℕ, ◌≡◌, refl, ◌↔◌, inl, inr, not, some, ◌==◌, Bool-cases, Option-cases, ==_refl, ==_iff, length,
  Bytes, Text, same, same_sound, same_refl,
}
use tinyllama_inference_engi.Result.{
  Result, ok, value_error, file_not_found, ◌>>=◌, ◌>>◌, raise_if, or_raise,
}
use tinyllama_inference_engi.Files.{Files, exists}
use tinyllama_inference_engi.Format.Hex.{to_hex}
use tinyllama_inference_engi.Format.Numpy.{Hash}
use tinyllama_inference_engi.Assets.Digest.{sha256_file, sha256_file-eq}

pub record FileRecord : Type 0 where
  pub sha256 : Text
  pub size : ℕ

module _ (hash : Hash) where
  -- `path.stat().st_size` follows a test that the file is there.
  unfoldable pub verify_file : Files → Text → FileRecord → Result (Unit {0})
  unfolding exists
  verify_file fs path r = do
    raise_if (not (exists fs path)) (file_not_found "required model asset is missing")
    contents ← or_raise (fs path) (file_not_found "")
    raise_if (not (length contents == r.size)) (value_error "size mismatch")
    actual ← sha256_file hash fs path
    raise_if (not (same actual r.sha256)) (value_error "SHA-256 mismatch")

  -- The file is there, with the recorded size and digest.
  pub record IsPinned (fs : Files) (path : Text) (r : FileRecord) : Type 0 where
    pub contents : Bytes
    pub found : fs path ≡ some contents
    pub sized : length contents ≡ r.size
    pub digested : to_hex (hash.sha256 contents) ≡ r.sha256

  verify-pinned :
      (fs : Files) (path : Text) (r : FileRecord)
      → IsPinned fs path r
      → verify_file fs path r ≡ ok tt
  unfolding verify_file
  verify-pinned fs path r p =
      rw
        (
          p.found,
          p.sized,
          ==_refl r.size,
          sha256_file-eq hash fs path p.contents p.found,
          p.digested,
          same_refl r.sha256,
        )
        refl

  verified :
      (fs : Files) (path : Text) (r : FileRecord)
      → verify_file fs path r ≡ ok tt
      → IsPinned fs path r
  unfolding verify_file
  verified fs path r h = elim (Option-cases (fs path)) [
    | inl gone ↦ cc (rw gone at h)
    | inr (c, there) ↦ elim (Bool-cases (length c == r.size)) [
      | inr bad ↦ cc (rw (there, bad) at h)
      | inl good ↦ elim (Bool-cases (same (to_hex (hash.sha256 c)) r.sha256)) [
        | inr bad ↦ cc (rw (there, good, sha256_file-eq hash fs path c there, bad) at h)
        | inl equal ↦ record {
          contents = c;
          found = there;
          sized = (==_iff _ _).0 good;
          digested = same_sound _ _ equal;
        }
      ]
    ]
  ]

  -- `verify_file` returns exactly when the file is there with the recorded size and SHA-256.
  pub verify_file_iff :
      (fs : Files) (path : Text) (r : FileRecord)
      → (verify_file fs path r ≡ ok tt) ↔ IsPinned fs path r
  verify_file_iff fs path r = (verified fs path r, verify-pinned fs path r)
