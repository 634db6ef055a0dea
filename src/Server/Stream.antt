-- ===== src/Server/Stream.antt =====
-- What a streamed completion of scripts/openai_smoke_test.py returns.
use tinyllama_inference_engi.Prelude.{
  ℕ, suc, ◌≤◌, ◌≡◌, refl, sym, ap, ◌∙◌, ◌⊎◌, inl, inr, true, false, not, some, List, [], ◌∷◌, arith,
  leb, ◌==◌, Bool-cases, leb→le, length, get_elem?, Text, codes, same,
}
use tinyllama_inference_engi.Prelude.Strings.{starts_with, remove_prefix, strip}
use tinyllama_inference_engi.Prelude.Int.{pos, eqb_ℤ, eqb_ℤ_sound}
use tinyllama_inference_engi.Result.{
  Result, ok, err, runtime_error, ◌>>=◌, ◌>>◌, raise_if, >>=-eq-ok, ok-injective, not-false,
  raise_if-eq-ok,
}
use tinyllama_inference_engi.Json.{Value, str}
use tinyllama_inference_engi.Json.Floats.{Floats}
use tinyllama_inference_engi.Json.Equal.{eq_value}
use tinyllama_inference_engi.Server.{
  Loads, object_of, read_chunks, Streaming, streaming_completion, stream_request,
}

module _ (fl : Floats) where
  open fl use {F}

  abbrev pub content : Text → Text
  content line = strip (remove_prefix (codes "data: ") line)

  -- The line carries data.
  abbrev pub Carries : Text → Type 0
  Carries line = starts_with (codes "data: ") line ≡ true

  -- A line of the stream that carries a chunk of a completion
  pub record Chunk (loads : Loads F) (lines : List (Result Text)) : Type 0 where
    pub line : Text
    pub place : ℕ
    pub there : get_elem? lines place ≡ some (ok line)
    pub carries : Carries line
    pub document : Value F
    pub parsed : loads (content line) ≡ ok document
    pub object : Value F
    pub named : object_of document ≡ ok object
    pub a_chunk : eq_value fl object (str (codes "chat.completion.chunk")) ≡ true

  later-Chunk :
      {loads : Loads F} {lines : List (Result Text)} (r : Result Text)
      → Chunk loads lines
      → Chunk loads (r ∷ lines)
  later-Chunk r c = record {
    line = c.line;
    place = suc c.place;
    there = c.there;
    carries = c.carries;
    document = c.document;
    parsed = c.parsed;
    object = c.object;
    named = c.named;
    a_chunk = c.a_chunk;
  }

  first_chunk :
      (loads : Loads F) (line : Text) (rest : List (Result Text)) (k : Result Text) {w : Text}
      → Carries line
      → (loads (content line) >>= λ document. object_of document >>= λ object.
          raise_if
            (not (eq_value fl object (str (codes "chat.completion.chunk"))))
            (runtime_error "stream chunk has the wrong OpenAI object")
          >> k)
        ≡ ok w
      → Chunk loads (ok line ∷ rest)
  first_chunk loads line rest k c h =
      let (document, parsed, h1) = >>=-eq-ok (loads (content line)) _ h in
      let (object, named, h2) = >>=-eq-ok (object_of document) _ h1 in
      let (u, found, h3) =
        >>=-eq-ok
          (raise_if (not (eq_value fl object (str (codes "chat.completion.chunk"))))
            (runtime_error "stream chunk has the wrong OpenAI object"))
          _ h2 in
      record {
        line = line;
        place = 0;
        there = refl;
        carries = c;
        document = document;
        parsed = parsed;
        object = object;
        named = named;
        a_chunk = not-false _ (raise_if-eq-ok _ _ found);
      }

  read_chunks-Chunk :
      (loads : Loads F) (n : ℕ) (lines : List (Result Text))
      → read_chunks fl loads false n lines ≡ ok (codes "completed")
      → (1 ≤ n) ⊎ Chunk loads lines
  unfolding read_chunks
  read_chunks-Chunk loads n [] h = cc
  read_chunks-Chunk loads n (err e ∷ rest) h = cc
  read_chunks-Chunk loads n (ok line ∷ rest) h = elim (Bool-cases (length line == 0)) [
    | inl e ↦ absurd (cc (rw e at h))
    | inr filled ↦ elim (Bool-cases (starts_with (codes "data: ") line)) [
      | inr other ↦ elim (read_chunks-Chunk loads n rest (rw (filled, other) at h)) [
        | inl more ↦ inl more
        | inr c ↦ inr (later-Chunk (ok line) c)
      ]
      | inl carries ↦ elim (Bool-cases (same (content line) (codes "[DONE]"))) [
        | inl done ↦ elim (Bool-cases (leb 2 (suc n))) [
          | inl several ↦ inl (omega (arith, leb→le _ _ several))
          | inr few ↦ absurd (cc (rw (filled, carries, done, few) at h))
        ]
        | inr going ↦ inr (
            first_chunk loads line rest (read_chunks fl loads false (suc n) rest) carries
              (rw (filled, carries, going) at h))
      ]
    ]
  ]

  -- A stream that is read to its end is called completed only if a line before the end carries a
  -- chunk of a completion.
  pub streaming_completion-Chunk :
      (loads : Loads F) (server : Streaming F) (prompt : Text)
      → streaming_completion fl loads server prompt false ≡ ok (codes "completed")
      → (lines : List (Result Text)) × (server (stream_request fl prompt false)
          ≡ ok (pos 200, lines))
        × Chunk loads lines
  unfolding streaming_completion
  streaming_completion-Chunk loads server prompt h =
      let (answer, answered, h1) = >>=-eq-ok (server (stream_request fl prompt false)) _ h in
      let (u, found, h2) =
        >>=-eq-ok (raise_if (not (eqb_ℤ answer.0 (pos 200))) (runtime_error "stream returned HTTP"))
          _ h1 in
      let status = eqb_ℤ_sound answer.0 (pos 200) (not-false _ (raise_if-eq-ok _ _ found)) in
      (
        answer.1,
        answered ∙ ap (λ s. ok (s, answer.1)) status,
        elim (read_chunks-Chunk loads 0 answer.1 h2) [
          | inl none_before ↦ absurd (omega arith)
          | inr c ↦ c
        ],
      )

  cancelled_chunks :
      (loads : Loads F) (lines : List (Result Text)) (r : Text)
      → read_chunks fl loads true 0 lines ≡ ok r
      → (r ≡ codes "cancelled") ⊎ (r ≡ codes "invalid")
  unfolding read_chunks
  cancelled_chunks loads [] r h = inr (cc)
  cancelled_chunks loads (err e ∷ rest) r h = cc
  cancelled_chunks loads (ok line ∷ rest) r h = elim (Bool-cases (length line == 0)) [
    | inl e ↦ inr (sym (ok-injective (rw e at h)))
    | inr filled ↦ elim (Bool-cases (starts_with (codes "data: ") line)) [
      | inr other ↦ cancelled_chunks loads rest r (rw (filled, other) at h)
      | inl carries ↦ elim (Bool-cases (same (content line) (codes "[DONE]"))) [
        | inl done ↦ inr (sym (ok-injective (rw (filled, carries, done) at h)))
        | inr going ↦ inl (sym (ok-injective (rw (filled, carries, going) at h)))
      ]
    ]
  ]

  -- A stream that is to be cancelled after its first chunk ends as cancelled or as invalid.
  pub streaming_completion-cancelled :
      (loads : Loads F) (server : Streaming F) (prompt r : Text)
      → streaming_completion fl loads server prompt true ≡ ok r
      → (r ≡ codes "cancelled") ⊎ (r ≡ codes "invalid")
  unfolding streaming_completion
  streaming_completion-cancelled loads server prompt r h =
      let (answer, answered, h1) = >>=-eq-ok (server (stream_request fl prompt true)) _ h in
      let (u, found, h2) =
        >>=-eq-ok (raise_if (not (eqb_ℤ answer.0 (pos 200))) (runtime_error "stream returned HTTP"))
          _ h1 in
      cancelled_chunks loads answer.1 r h2
