-- ===== src/Assets/Download.antt =====
-- `download_file` of scripts/model_assets.py.
use tinyllama_inference_engi.Prelude.{
  ℕ, ◌+◌, ◌≡◌, refl, ap, inl, inr, false, ◌&&◌, ◌||◌, not, [], ◌∷◌, ◌++◌, append-nil, append_assoc,
  arith, ◌==◌, if◌then◌else◌, Bool-cases, ==_iff, length, length-append, Bytes, Text, same,
  same_sound,
}
use tinyllama_inference_engi.Result.{Result, Error, ok, err, value_error, Result-cases}
use tinyllama_inference_engi.Exec.{Exec, raise, modify, raise_when, on_error, ◌>>=◌, ◌>>◌}
use tinyllama_inference_engi.Files.{
  Files, exists, put, unlink, with_open, replace, partial_path, replace-put, unlink-put,
  unlink-unlink, partial_path-ne, put_self, put_ne, unlink_ne,
}
use tinyllama_inference_engi.Format.Hex.{to_hex}
use tinyllama_inference_engi.Format.Numpy.{Hash}
use tinyllama_inference_engi.Assets.Verify.{FileRecord, verify_file, IsPinned, verify_file_iff}

-- What the server sends: the results of `response.read`, until an empty one or an exception.
-- `refused` is an exception of `urlopen` itself, before the temporary file is opened.
pub data Body : Type 0 where
  finished : Body
  chunk : Bytes → Body → Body
  breaks : Error → Body

pub data Response : Type 0 where
  refused : Error → Response
  opened : Body → Response

abbrev pub prepend : Bytes → Result Bytes → Result Bytes
prepend c (ok d) = ok (c ++ d)
prepend c (err e) = err e

-- The bytes that a response delivers before it ends.
unfoldable pub delivered : Body → Result Bytes
delivered finished = ok []
delivered (breaks e) = err e
delivered (chunk c rest) =
    let more = prepend c (delivered rest) in if length c == 0 then ok [] else more

unfoldable pub arrived : Response → Result Bytes
unfolding delivered
arrived (refused e) = err e
arrived (opened body) = delivered body

module _ (hash : Hash) where
  open hash use {sha256, Hasher, new, update, digest, digest-new, digest-update, update-update}

  -- The loop over the chunks: the state is what `output` holds, the result is the hasher and the
  -- number of bytes received. An empty chunk ends the loop.
  unfoldable pub receive : Body → Hasher → ℕ → Exec Bytes (Hasher × ℕ)
  receive finished h received out = (ok (h, received), out)
  receive (breaks e) h received out = (err e, out)
  receive (chunk c rest) h received out =
      let next = receive rest (update h c) (received + length c) (out ++ c) in
      if length c == 0 then (ok (h, received), out) else next

  unfoldable pub fetch : Text → Response → Exec Files (Hasher × ℕ)
  unfolding receive
  fetch temporary (refused e) = raise e
  fetch temporary (opened body) = with_open temporary (receive body new 0)

  unfoldable pub save : Text → FileRecord → Response → Exec Files (Unit {0})
  unfolding fetch
  save destination r response = do
    let temporary = partial_path destination
    modify (unlink temporary)
    (h, received) ← on_error (fetch temporary response) (unlink temporary)
    on_error
        (raise_when (not (received == r.size) || not (same (to_hex (digest h)) r.sha256))
          (value_error "download verification failed"))
        (unlink temporary)
    modify (replace temporary destination)

  unfoldable pub download_file : Text → FileRecord → Response → Exec Files (Unit {0})
  unfolding save
  download_file destination r response fs =
      if exists fs destination
      then (verify_file hash fs destination r, fs)
      else save destination r response fs

  abbrev Received : Result Bytes → ℕ → Bytes → Bytes → Result (Hasher × ℕ) × Bytes → Type 0
  Received (ok d) n before out r =
      (h : Hasher) × (r ≡ (ok (h, n + length d), out ++ d)) × (digest h ≡ sha256 (before ++ d))
  Received (err x) n before out r = r.0 ≡ err x

  receive-Received :
      (body : Body) (h : Hasher) (n : ℕ) (before out : Bytes)
      → digest h ≡ sha256 before
      → ((b : Bytes) → update h b ≡ update new (before ++ b))
      → Received (delivered body) n before out (receive body h n out)
  unfolding delivered receive
  receive-Received finished h n before out d u =
      let e : n + 0 ≡ n = omega arith in (h, rw (append-nil, e) refl, rw append-nil d)
  receive-Received (breaks e) h n before out d u = refl
  receive-Received (chunk [] rest) h n before out d u =
      let e : n + 0 ≡ n = omega arith in (h, rw (append-nil, e) refl, rw append-nil d)
  receive-Received (chunk (x ∷ c) rest) h n before out d u =
      let b : Bytes = x ∷ c in
      let d' : digest (update h b) ≡ sha256 (before ++ b) = rw u (digest-update (before ++ b)) in
      let u' : (y : Bytes) → update (update h b) y ≡ update new ((before ++ b) ++ y) =
        λ y. rw (u b, update-update) refl in
      let later =
        receive-Received rest (update h b) (n + length b) (before ++ b) (out ++ b) d' u' in
      let ne : (length b == 0) ≡ false = ground arith in
      elim (Result-cases (delivered rest)) [
        | inr (e, k) ↦ rw (ne, k) (rw k at later)
        | inl (more, k) ↦
            let later' : (h' : Hasher) × (receive rest (update h b) (n + length b) (out ++ b)
                  ≡ (ok (h', n + length b + length more), (out ++ b) ++ more))
                × (digest h' ≡ sha256 ((before ++ b) ++ more)) =
              (rw k at later) in
            let count : n + length b + length more ≡ n + length (b ++ more) =
              omega (arith, length-append {0} b more) in
            rw (ne, k, ← count, ← append_assoc, ← append_assoc) later'
      ]

  -- What a run leaves, from the bytes that arrived.
  abbrev pub saved : Files → Text → FileRecord → Result Bytes → Result (Unit {0}) × Files
  saved fs destination r (err x) = (err x, unlink (partial_path destination) fs)
  saved fs destination r (ok d) =
      if length d == r.size && same (to_hex (sha256 d)) r.sha256
      then (ok tt, put (unlink (partial_path destination) fs) destination d)
      else (err (value_error "download verification failed"), unlink (partial_path destination) fs)

  save-eq :
      (destination : Text) (r : FileRecord) (response : Response) (fs : Files)
      → save destination r response fs ≡ saved fs destination r (arrived response)
  unfolding save arrived with_open
  save-eq destination r (refused e) fs = rw unlink-unlink refl
  save-eq destination r (opened body) fs =
      let t : Text = partial_path destination in
      let loop = receive-Received body new 0 [] [] digest-new (λ b. refl) in
      elim (Result-cases (delivered body)) [
        | inr (x, k) ↦
            let stopped : (receive body new 0 []).0 ≡ err x = (rw k at loop) in
            rw (stopped, k, unlink-put, unlink-unlink) refl
        | inl (d, k) ↦
            let loop' : (h : Hasher) × (receive body new 0 [] ≡ (ok (h, 0 + length d), d))
                × (digest h ≡ sha256 d) =
              (rw k at loop) in
            let size : 0 + length d ≡ length d = omega arith in
            elim (Bool-cases (length d == r.size)) [
              | inr bad ↦ rw (loop'.1, k, size, loop'.2, bad, unlink-put, unlink-unlink) refl
              | inl good ↦ elim (Bool-cases (same (to_hex (sha256 d)) r.sha256)) [
                | inr bad ↦
                    rw (loop'.1, k, size, loop'.2, good, bad, unlink-put, unlink-unlink) refl
                | inl equal ↦
                    rw
                      (
                        loop'.1,
                        k,
                        size,
                        loop'.2,
                        good,
                        equal,
                        replace-put t destination fs d (partial_path-ne destination),
                      )
                      refl
              ]
            ]
      ]

  -- On every input: a destination that is there already is verified and nothing is written;
  -- otherwise the destination receives exactly the bytes that arrived, if they have the recorded
  -- size and SHA-256, or else it stays missing, and the temporary is gone either way.
  pub download_file_outcome :
      (destination : Text) (r : FileRecord) (response : Response) (fs : Files)
      → download_file destination r response fs ≡ (
          if exists fs destination
          then (verify_file hash fs destination r, fs)
          else saved fs destination r (arrived response))
  unfolding download_file
  download_file_outcome destination r response fs =
      ap
        (λ (o : Result (Unit {0}) × Files).
          if exists fs destination then (verify_file hash fs destination r, fs) else o)
        (save-eq destination r response fs)

  saved-IsPinned :
      (destination : Text) (r : FileRecord) (fs : Files) (a : Result Bytes)
      → (saved fs destination r a).0 ≡ ok tt
      → IsPinned hash (saved fs destination r a).1 destination r
  saved-IsPinned destination r fs (err x) h = cc
  saved-IsPinned destination r fs (ok d) h = elim (Bool-cases (length d == r.size)) [
    | inr bad ↦ cc
    | inl good ↦ elim (Bool-cases (same (to_hex (sha256 d)) r.sha256)) [
      | inr bad ↦ cc (rw (good, bad) at h)
      | inl equal ↦
          rw (good, equal)
            (record {
              contents = d;
              found = put_self _ destination d;
              sized = (==_iff _ _).0 good;
              digested = same_sound _ _ equal;
            })
    ]
  ]

  -- If `download_file` returns, then the destination holds a file with the recorded size and
  -- SHA-256, wherever it came from.
  pub download_file-IsPinned :
      (destination : Text) (r : FileRecord) (response : Response) (fs : Files)
      → (download_file destination r response fs).0 ≡ ok tt
      → IsPinned hash (download_file destination r response fs).1 destination r
  download_file-IsPinned destination r response fs h = elim (Bool-cases (exists fs destination)) [
    | inl there ↦
        let run : download_file destination r response fs
            ≡ (verify_file hash fs destination r, fs) =
          rw (download_file_outcome, there) refl in
        rw run ((verify_file_iff hash fs destination r).0 (rw run at h))
    | inr gone ↦
        let run : download_file destination r response fs
            ≡ saved fs destination r (arrived response) =
          rw (download_file_outcome, gone) refl in
        rw run (saved-IsPinned destination r fs (arrived response) (rw run at h))
  ]

  saved_others :
      (destination : Text) (r : FileRecord) (fs : Files) (a : Result Bytes) (q : Text)
      → same destination q ≡ false
      → same (partial_path destination) q ≡ false
      → (saved fs destination r a).1 q ≡ fs q
  saved_others destination r fs (err x) q a b = unlink_ne (partial_path destination) fs q b
  saved_others destination r fs (ok d) q a b = ground (
    arith,
    put_ne (unlink (partial_path destination) fs) destination q d a,
    unlink_ne (partial_path destination) fs q b,
  )

  -- Whatever happens, only the destination and its temporary may change.
  pub download_file_others :
      (destination : Text) (r : FileRecord) (response : Response) (fs : Files) (q : Text)
      → same destination q ≡ false
      → same (partial_path destination) q ≡ false
      → (download_file destination r response fs).1 q ≡ fs q
  download_file_others destination r response fs q a b = elim (Bool-cases (exists fs destination)) [
    | inl there ↦ rw (download_file_outcome, there) refl
    | inr gone ↦
        rw (download_file_outcome, gone) (saved_others destination r fs (arrived response) q a b)
  ]
