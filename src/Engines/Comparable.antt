-- ===== src/Engines/Comparable.antt =====
-- What the rows of a comparison have in common that scripts/compare_engines.py accepts.
use tinyllama_inference_engi.Prelude.{
  ◌≡◌, refl, sym, ap, ◌∙◌, ◌⊎◌, inl, inr, Bool, true, false, ◌||◌, not, Option, List, [], ◌∷◌,
  arith, ◌==◌, Bool-cases, ==_iff, &&_true, length, all, any, All, Text, codes, same_sound,
  same_refl,
}
use tinyllama_inference_engi.Prelude.{or_false}
use mathlib.Core.Path.{subst}
use tinyllama_inference_engi.Prelude.Strings.{count}
use tinyllama_inference_engi.Prelude.Sort.{sort_texts, count-sort_texts}
use tinyllama_inference_engi.Prelude.Int.{pos}
use tinyllama_inference_engi.Result.{
  Result, ok, value_error, type_error, raise_if, >>=-eq-ok, raise_if-eq-ok, not-false, ok-injective,
}
use tinyllama_inference_engi.Json.Floats.{Floats}
use tinyllama_inference_engi.Json.{
  Value, Fields, null, int, str, arr, get, is_list, items, hashable,
}
use tinyllama_inference_engi.Json.Equal.{eq_value}
use tinyllama_inference_engi.Benchmark.{is_sha256}
use tinyllama_inference_engi.Benchmark.Accepted.{HasFields}
use tinyllama_inference_engi.Engines.{differs, external_row}
use tinyllama_inference_engi.Engines.Tlie.{tlie_rows}
use tinyllama_inference_engi.Engines.Rows.{
  required_engines, same_texts, is_sha, row_items, only_source, validate_row, validate_each,
  check_tokens, engines_of, validate_rows, compare_engines, first_source,
}

same_texts_sound : (ss ts : List Text) → same_texts ss ts ≡ true → ss ≡ ts
same_texts_sound [] [] h = refl
same_texts_sound [] (t ∷ ts) h = cc
same_texts_sound (s ∷ ss) [] h = cc
same_texts_sound (s ∷ ss) (t ∷ ts) h =
    let (e, more) = &&_true _ _ h in
    ap (λ x. x ∷ ss) (same_sound s t e) ∙ ap (λ l. t ∷ l) (same_texts_sound ss ts more)

module _ {A : Type 0} where
  all-All : (p : A → Bool) (xs : List A) → all p xs ≡ true → All (λ x. p x ≡ true) xs
  all-All p [] h = tt
  all-All p (x ∷ xs) h = let (here, more) = &&_true (p x) (all p xs) h in (here, all-All p xs more)

  none-All :
      (p : A → Bool) (xs : List A) → any (λ x. not (p x)) xs ≡ false → All (λ x. p x ≡ true) xs
  none-All p [] h = tt
  none-All p (x ∷ xs) h =
      let (here, more) = or_false (not (p x)) (any (λ y. not (p y)) xs) h in
      (not-false _ here, none-All p xs more)

is_sha-str :
    {F : Type 0} (v : Value F) → is_sha v ≡ true → (t : Text) × (v ≡ str t) × (is_sha256 t ≡ true)
is_sha-str (str t) h = (t, refl, h)
is_sha-str null h = cc
is_sha-str (Value.boolean b) h = cc
is_sha-str (int n) h = cc
is_sha-str (Value.float x) h = cc
is_sha-str (arr vs) h = cc
is_sha-str (Value.obj d) h = cc

module _ (fl : Floats) where
  open fl use {F}

  -- The workload that every row must have run
  abbrev pub fixed_workload : List (Text × Value F)
  fixed_workload =
      (codes "status", str (codes "available"))
      ∷ (codes "context", int (pos 128))
      ∷ (codes "output_tokens", int (pos 32))
      ∷ (codes "warmup", int (pos 3))
      ∷ (codes "samples", int (pos 10))
      ∷ (codes "sampling", str (codes "greedy"))
      ∷ (codes "seed", int (pos 0))
      ∷ []

  abbrev tree_of : Fields F → Value F
  tree_of row = get (codes "source_tree_sha256") row

  abbrev tokens_of : Fields F → Value F
  tokens_of row = get (codes "generated_tokens") row

  -- The rows can be compared.
  pub record Comparable (show : Value F → Text) (rows : List (Fields F)) : Type 0 where
    pub each_engine_once : (t : Text) → count t (engines_of fl show rows) ≡ count t required_engines
    pub tree : Text
    pub tree_digest : is_sha256 tree ≡ true
    pub one_source :
        All (λ row. eq_value fl (str tree) (get (codes "source_tree_sha256") row) ≡ true) rows
    pub same_workload : All (HasFields fl fixed_workload) rows
    pub tokens : Value F
    pub token_count : length (items tokens) ≡ 32
    pub same_tokens :
        All (λ row. (tokens_of row ≡ tokens) ⊎ (eq_value fl (tokens_of row) tokens ≡ true)) rows

  validate_row-workload :
      (row : Fields F) → validate_row fl row ≡ ok tt → HasFields fl fixed_workload row
  unfolding validate_row
  validate_row-workload row h =
      let (u, status, h1) =
        >>=-eq-ok
          (raise_if (differs fl (codes "status") (str (codes "available")) row)
            (value_error "engine is not available"))
          _ h in
      let (u1, workload, h2) =
        >>=-eq-ok
          (raise_if
            (differs fl (codes "context") (int (pos 128)) row
              || (differs fl (codes "output_tokens") (int (pos 32)) row
                  || (differs fl (codes "warmup") (int (pos 3)) row
                      || differs fl (codes "samples") (int (pos 10)) row)))
            (value_error "engine used a non-comparable workload"))
          _ h1 in
      let (u2, sampling, h3) =
        >>=-eq-ok
          (raise_if
            (differs fl (codes "sampling") (str (codes "greedy")) row
              || differs fl (codes "seed") (int (pos 0)) row)
            (value_error "engine used non-comparable sampling"))
          _ h2 in
      let (context, w1) = or_false _ _ (raise_if-eq-ok _ _ workload) in
      let (outputs, w2) = or_false _ _ w1 in
      let (warmup, samples) = or_false _ _ w2 in
      let (greedy, seed) = or_false _ _ (raise_if-eq-ok _ _ sampling) in
      (
        not-false _ (raise_if-eq-ok _ _ status),
        (
          not-false _ context,
          (
            not-false _ outputs,
            (
              not-false _ warmup,
              (not-false _ samples, (not-false _ greedy, (not-false _ seed, tt))),
            ),
          ),
        ),
      )

  validate_each-workload :
      (rows : List (Fields F))
      → validate_each fl rows ≡ ok tt
      → All (HasFields fl fixed_workload) rows
  unfolding validate_each
  validate_each-workload [] h = tt
  validate_each-workload (row ∷ rest) h =
      let (u, here, more) = >>=-eq-ok (validate_row fl row) _ h in
      (validate_row-workload row here, validate_each-workload rest more)

  one_source_lem :
      (rows : List (Fields F))
      → is_sha (only_source fl rows) ≡ true
      → (t : Text) × (is_sha256 t ≡ true)
        × All (λ row. eq_value fl (str t) (get (codes "source_tree_sha256") row) ≡ true) rows
  unfolding only_source eq_value
  one_source_lem [] h = cc
  one_source_lem (row ∷ rest) h =
      elim (Bool-cases (all (λ r. eq_value fl (tree_of row) (tree_of r)) rest)) [
        | inr e ↦ absurd (cc (rw e at h))
        | inl e ↦
            let (t, named, digest) = is_sha-str (tree_of row) (rw e at h) in
            (
              t,
              digest,
              (
                rw named (same_refl t),
                subst (λ v. All (λ r. eq_value fl v (tree_of r) ≡ true) rest) named
                    (all-All {A = Fields F} (λ r. eq_value fl (tree_of row) (tree_of r)) rest e),
              ),
            )
      ]

  All-inr : {A : Type 0} (P Q : A → Type 0) (xs : List A) → All Q xs → All (λ x. P x ⊎ Q x) xs
  All-inr P Q [] h = tt
  All-inr P Q (x ∷ xs) h = (inr h.0, All-inr P Q xs h.1)

  check_tokens_lem :
      (row : Fields F) (rest : List (Fields F))
      → check_tokens fl (row ∷ rest) ≡ ok tt
      → (length (items (tokens_of row)) ≡ 32)
        × All
            (λ r.
              (tokens_of r ≡ tokens_of row) ⊎ (eq_value fl (tokens_of r) (tokens_of row) ≡ true))
            (row ∷ rest)
  unfolding check_tokens
  check_tokens_lem row rest h =
      let (u, counted, h1) =
        >>=-eq-ok
          (raise_if (not (is_list (tokens_of row)) || not (length (items (tokens_of row)) == 32))
            (value_error "PyTorch reference did not provide exactly 32 generated tokens"))
          _ h in
      let (listed, exactly) = or_false _ _ (raise_if-eq-ok _ _ counted) in
      (
        (==_iff _ _).0 (not-false _ exactly),
        (
          inl refl,
          All-inr (λ r. tokens_of r ≡ tokens_of row)
              (λ r. eq_value fl (tokens_of r) (tokens_of row) ≡ true) rest
              (none-All (λ r. eq_value fl (tokens_of r) (tokens_of row)) rest
                (raise_if-eq-ok _ _ h1)),
        ),
      )

  comparable :
      (show : Value F → Text) (rows : List (Fields F))
      → ((t : Text) → count t (engines_of fl show rows) ≡ count t required_engines)
      → (t : Text) → is_sha256 t ≡ true
      → All (λ row. eq_value fl (str t) (get (codes "source_tree_sha256") row) ≡ true) rows
      → All (HasFields fl fixed_workload) rows
      → check_tokens fl rows ≡ ok tt
      → Comparable show rows
  unfolding count
  comparable show [] counted t digest sources workload h =
      absurd (omega (arith, counted (codes "llama_cpp")))
  comparable show (row ∷ rest) counted t digest sources workload h =
      let (size, tokens) = check_tokens_lem row rest h in
      record {
        each_engine_once = counted;
        tree = t;
        tree_digest = digest;
        one_source = sources;
        same_workload = workload;
        tokens = tokens_of row;
        token_count = size;
        same_tokens = tokens;
      }

  pub validate_rows-Comparable :
      (show : Value F → Text) (rows : List (Fields F))
      → validate_rows fl show rows ≡ ok tt
      → Comparable show rows
  unfolding validate_rows
  validate_rows-Comparable show rows h =
      let (u, complete, h1) =
        >>=-eq-ok
          (raise_if
            (not (same_texts (sort_texts (engines_of fl show rows)) (sort_texts required_engines)))
            (value_error "comparison engines are incomplete"))
          _ h in
      let (u1, hashed, h2) =
        >>=-eq-ok
          (raise_if (not (all (λ r. hashable (get (codes "source_tree_sha256") r)) rows))
            (type_error "unhashable type"))
          _ h1 in
      let (u2, single, h3) =
        >>=-eq-ok
          (raise_if (not (is_sha (only_source fl rows)))
            (value_error "cross-engine report contains mixed source snapshots"))
          _ h2 in
      let (u3, each, h4) = >>=-eq-ok (validate_each fl rows) _ h3 in
      let sorted = same_texts_sound _ _ (not-false _ (raise_if-eq-ok _ _ complete)) in
      let (t, digest, sources) = one_source_lem rows (not-false _ (raise_if-eq-ok _ _ single)) in
      comparable show rows
        (λ x.
          sym (count-sort_texts x (engines_of fl show rows))
          ∙ (ap (count x) sorted ∙ count-sort_texts x required_engines))
        t digest sources (validate_each-workload rows each) h4

  -- If a comparison is written, its engines are rows in which each required engine stands once, all
  -- from the source tree with one well-formed digest, which is the reported one, with the fixed workload and the
  -- same thirty-two tokens.
  pub compare_engines-Comparable :
      (show : Value F → Text) (pytorch llama tlie : Result (Value F)) (int8 : Option (Value F))
      (batch : Value F) (document : Fields F)
      → compare_engines fl show pytorch llama tlie int8 batch ≡ ok document
      → (rows : List (Fields F)) × (get (codes "engines") document ≡ arr (row_items rows))
        × (first_source fl show rows ≡ ok (get (codes "source_tree_sha256") document))
        × Comparable show rows
  unfolding compare_engines
  compare_engines-Comparable show pytorch llama tlie int8 batch document h =
      let (pytorch_row, p, h1) = >>=-eq-ok (external_row fl pytorch (codes "pytorch_fp16")) _ h in
      let (llama_row, l, h2) = >>=-eq-ok (external_row fl llama (codes "llama_cpp")) _ h1 in
      let (report, t, h3) = >>=-eq-ok tlie _ h2 in
      let (own_rows, o, h4) = >>=-eq-ok (tlie_rows fl show report int8 batch) _ h3 in
      let rows : List (Fields F) = pytorch_row ∷ llama_row ∷ own_rows in
      let (u, valid, h5) = >>=-eq-ok (validate_rows fl show rows) _ h4 in
      let (source, there, h6) = >>=-eq-ok (first_source fl show rows) _ h5 in
      (
        rows,
        ap (get (codes "engines")) (sym (ok-injective h6)),
        there ∙ ap (λ d. ok (get (codes "source_tree_sha256") d)) (ok-injective h6),
        validate_rows-Comparable show rows valid,
      )
