-- ===== src/Assets/Digest.antt =====
-- `sha256_file` of scripts/model_assets.py, and `_sha256_file` of scripts/source_snapshot.py: the
-- digest of a file that is read in chunks.
use tinyllama_inference_engi.Prelude.{
  ℕ, zero, suc, ◌*◌, ◌≤◌, ◌<◌, ◌≡◌, refl, ap, ◌∙◌, Option, none, some, [], ◌∷◌, ◌++◌, append-nil,
  append_assoc, arith, ◌==◌, if◌then◌else◌, length, take, drop, length-drop, take-append-drop,
  Bytes, Text,
}
use tinyllama_inference_engi.Result.{Result, ok, out_of_fuel, file_not_found, ◌>>=◌, or_raise}
use tinyllama_inference_engi.Files.{Files}
use tinyllama_inference_engi.Format.Hex.{to_hex}
use tinyllama_inference_engi.Format.Numpy.{Hash}

module _ (hash : Hash) where
  open hash use {sha256, Hasher, new, update, digest, digest-new, digest-update, update-update}

  -- `while chunk := handle.read(chunk_size): digest.update(chunk)`, on what is left to read. A round
  -- that goes on takes a byte at least, so the length of the file is fuel enough.
  unfoldable pub read_chunks : ℕ → ℕ → Bytes → Hasher → Option Hasher
  read_chunks zero chunk_size rest h = if length (take chunk_size rest) == 0 then some h else none
  read_chunks (suc fuel) chunk_size rest h =
      let next =
        read_chunks fuel chunk_size (drop chunk_size rest) (update h (take chunk_size rest)) in
      if length (take chunk_size rest) == 0 then some h else next

  -- `sha256_file(path, chunk_size)`
  unfoldable pub sha256_file_by : ℕ → Files → Text → Result Text
  unfolding read_chunks
  sha256_file_by chunk_size fs path = do
    contents ← or_raise (fs path) (file_not_found "")
    h ← or_raise (read_chunks (length contents) chunk_size contents new) out_of_fuel
    ok (to_hex (digest h))

  -- The default of the parameter: 8 MiB.
  unfoldable pub sha256_file : Files → Text → Result Text
  unfolding sha256_file_by
  sha256_file = sha256_file_by (8 * 1024 * 1024)

  -- A hasher that has taken `before`.
  pub record HasTaken (h : Hasher) (before : Bytes) : Type 0 where
    pub result : digest h ≡ sha256 before
    pub onward : (b : Bytes) → update h b ≡ update new (before ++ b)

  pub HasTaken-new : HasTaken new []
  HasTaken-new = record { result = digest-new; onward = λ b. refl }

  pub HasTaken-update :
      (h : Hasher) (before b : Bytes) → HasTaken h before → HasTaken (update h b) (before ++ b)
  HasTaken-update h before b t = record {
    result = rw t.onward (digest-update (before ++ b));
    onward = λ c. rw (t.onward b, update-update) refl;
  }

  read_chunks-digest :
      (fuel n : ℕ) (rest : Bytes) (h : Hasher) (before : Bytes)
      → length rest ≤ fuel
      → 0 < n
      → HasTaken h before
      → (r : Hasher) × (read_chunks fuel n rest h ≡ some r) × (digest r ≡ sha256 (before ++ rest))
  unfolding read_chunks
  read_chunks-digest zero (suc n) [] h before s p t = (h, refl, rw append-nil t.result)
  read_chunks-digest zero n (x ∷ rest) h before s p t = absurd (omega arith)
  read_chunks-digest zero zero [] h before s p t = absurd (omega arith)
  read_chunks-digest (suc fuel) zero rest h before s p t = absurd (omega arith)
  read_chunks-digest (suc fuel) (suc n) [] h before s p t = (h, refl, rw append-nil t.result)
  read_chunks-digest (suc fuel) (suc n) (x ∷ rest) h before s p t =
      let chunk : Bytes = x ∷ take n rest in
      let (r, run, done) =
        read_chunks-digest fuel (suc n) (drop n rest) (update h chunk) (before ++ chunk)
          (omega (arith, length-drop {0} n rest)) p (HasTaken-update h before chunk t) in
      let whole : (before ++ chunk) ++ drop n rest ≡ before ++ (x ∷ rest) =
        append_assoc before chunk (drop n rest)
        ∙ ap (λ l. before ++ (x ∷ l)) (take-append-drop n rest) in
      (r, ground (arith, run), done ∙ ap sha256 whole)

  -- The digest of a file is that of its bytes, whatever the (positive) size of the chunks, and the
  -- loop ends.
  pub sha256_file_by-eq :
      (n : ℕ) (fs : Files) (path : Text) (contents : Bytes)
      → 0 < n
      → fs path ≡ some contents
      → sha256_file_by n fs path ≡ ok (to_hex (sha256 contents))
  unfolding sha256_file_by
  sha256_file_by-eq n fs path contents p e =
      let (r, run, done) =
        read_chunks-digest (length contents) n contents new [] (omega arith) p HasTaken-new in
      rw (e, run, done) refl

  pub sha256_file-eq :
      (fs : Files) (path : Text) (contents : Bytes)
      → fs path ≡ some contents
      → sha256_file fs path ≡ ok (to_hex (sha256 contents))
  unfolding sha256_file
  sha256_file-eq fs path contents e = sha256_file_by-eq _ fs path contents (omega arith) e
