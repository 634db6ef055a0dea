-- ===== src/Quantized/Accepted.antt =====
-- What is true of the results behind a report of scripts/benchmark_int8.py.
use tinyllama_inference_engi.Prelude.{
  ◌≡◌, refl, sym, inl, inr, Bool, true, false, ◌||◌, not, List, [], ◌∷◌, Bool-cases, length, All,
  All-append, Text, codes, same, same_sound,
}
use tinyllama_inference_engi.Prelude.{or_false}
use tinyllama_inference_engi.Prelude.Int.{ℤ, pos, eqb_ℤ, eqb_ℤ_sound, eqb_ℤ_refl, leb_ℤ}
use mathlib.Core.Path.{subst}
use tinyllama_inference_engi.Result.{
  ok, value_error, raise_if, >>=-eq-ok, raise_if-eq-ok, not-false, ok-injective,
}
use tinyllama_inference_engi.Json.Floats.{Floats}
use tinyllama_inference_engi.Json.{
  Value, Fields, null, boolean, int, float, str, arr, obj, end, field, get, index, as_dict, as_list,
  is_int, set_field,
}
use tinyllama_inference_engi.Json.Equal.{eq_value, to_int, bit}
use tinyllama_inference_engi.Benchmark.{expect_fields}
use tinyllama_inference_engi.Benchmark.Accepted.{HasFields, expect_fields-HasFields, index-get}
use tinyllama_inference_engi.Quantized.{
  Arguments, Checksums, validate_result, expected_result, finite_samples, check_allocations,
  modes_of, count_before, count_after,
}
use tinyllama_inference_engi.Quantized.Report.{Runs, run_modes, run_contexts, allocation_stable}

eqb_ℤ-true_comm : (a b : ℤ) → eqb_ℤ a b ≡ true → eqb_ℤ b a ≡ true
eqb_ℤ-true_comm a b h = rw (eqb_ℤ_sound a b h) (eqb_ℤ_refl b)

module _ {F : Type 0} where
  get-set_field_other :
      (key other : Text) (v : Value F) (d : Fields F)
      → same other key ≡ false
      → get key (set_field other v d) ≡ get key d
  unfolding set_field
  get-set_field_other key other v end n = rw n refl
  get-set_field_other key other v (field k w rest) n = elim (Bool-cases (same k other)) [
    | inl e ↦ let k_other : same k key ≡ false = rw (same_sound k other e) n in rw (e, k_other) refl
    | inr e ↦ elim (Bool-cases (same k key)) [
      | inl d ↦ rw (e, d) refl
      | inr d ↦ rw (e, d) (get-set_field_other key other v rest n)
    ]
  ]

module _ (fl : Floats) where
  open fl use {F}

  -- A number that equals an integer is one that the integer equals.
  eq_value-int_comm :
      (v w : Value F) → is_int w ≡ true → eq_value fl v w ≡ true → eq_value fl w v ≡ true
  unfolding eq_value
  eq_value-int_comm v null i h = cc
  eq_value-int_comm v (str s) i h = cc
  eq_value-int_comm v (float x) i h = cc
  eq_value-int_comm v (arr vs) i h = cc
  eq_value-int_comm v (obj d) i h = cc
  eq_value-int_comm null (int n) i h = cc
  eq_value-int_comm (str s) (int n) i h = cc
  eq_value-int_comm (arr vs) (int n) i h = cc
  eq_value-int_comm (obj d) (int n) i h = cc
  eq_value-int_comm (float x) (int n) i h = h
  eq_value-int_comm (int m) (int n) i h = eqb_ℤ-true_comm m n h
  eq_value-int_comm (boolean b) (int n) i h = eqb_ℤ-true_comm (bit b) n h
  eq_value-int_comm null (boolean b) i h = cc
  eq_value-int_comm (str s) (boolean b) i h = cc
  eq_value-int_comm (arr vs) (boolean b) i h = cc
  eq_value-int_comm (obj d) (boolean b) i h = cc
  eq_value-int_comm (float x) (boolean b) i h = h
  eq_value-int_comm (int m) (boolean b) i h = eqb_ℤ-true_comm m (bit b) h
  eq_value-int_comm (boolean b) (boolean c) i h = eqb_ℤ-true_comm (bit b) (bit c) h

  -- A result whose allocations did not change
  abbrev pub Stable : Fields F → Type 0
  Stable result = eq_value fl (get count_before result) (get count_after result) ≡ true

  check_allocations-Stable :
      (result : Fields F) → check_allocations fl result ≡ ok tt → Stable result
  unfolding check_allocations
  check_allocations-Stable result h =
      let before : Value F = get count_before result in
      let (u, counted, h1) =
        >>=-eq-ok (raise_if (not (is_int before)) (value_error "changed device allocation count")) _
          h in
      let (n, valued, h2) = >>=-eq-ok (to_int fl before) _ h1 in
      let (u1, unchanged, h3) =
        >>=-eq-ok
          (raise_if (leb_ℤ n (pos 0) || not (eq_value fl (get count_after result) before))
            (value_error "changed device allocation count"))
          _ h2 in
      let (positive, same_count) = or_false _ _ (raise_if-eq-ok _ _ unchanged) in
      eq_value-int_comm (get count_after result) before (not-false _ (raise_if-eq-ok _ _ counted))
        (not-false _ same_count)

  validate_result-Stable :
      (result : Fields F) (mode : Text) (context : ℤ) (args : Arguments) (checksums : Checksums F)
      → validate_result fl result mode context args checksums ≡ ok tt
      → HasFields fl (expected_result mode context args checksums) result × Stable result
  unfolding validate_result
  validate_result-Stable result mode context args checksums h =
      let (u, expected, h1) =
        >>=-eq-ok
          (expect_fields fl (value_error "returned invalid field")
            (expected_result mode context args checksums) result)
          _ h in
      let (measurements, listed, h2) = >>=-eq-ok (as_list (get (codes "samples") result)) _ h1 in
      let (u1, counted, h3) =
        >>=-eq-ok
          (raise_if (not (eqb_ℤ (pos (length measurements)) args.samples))
            (value_error "returned an invalid sample count"))
          _ h2 in
      let (finite, tested, h4) = >>=-eq-ok (finite_samples fl measurements) _ h3 in
      let (u2, all_finite, h5) =
        >>=-eq-ok
          (raise_if (not finite) (value_error "contains NaN, Inf, or negative measurements")) _
          h4 in
      (
        expect_fields-HasFields fl (value_error "returned invalid field")
            (expected_result mode context args checksums) result expected,
        check_allocations-Stable result h5,
      )

  run_modes-Stable :
      (runs : Runs fl) (args : Arguments) (checksums : Checksums F) (context : ℤ)
      (modes : List Text) (raw : List (Fields F))
      → run_modes fl runs args checksums context modes ≡ ok raw
      → All Stable raw
  unfolding run_modes
  run_modes-Stable runs args checksums context [] raw h = subst (All Stable) (ok-injective h) tt
  run_modes-Stable runs args checksums context (mode ∷ rest) raw h =
      let (pair, ran, h1) = >>=-eq-ok (runs mode context) _ h in
      let (result, found, h2) = >>=-eq-ok (as_dict pair.0) _ h1 in
      let (u, valid, h3) = >>=-eq-ok (validate_result fl result mode context args checksums) _ h2 in
      let (more, ran_more, h4) = >>=-eq-ok (run_modes fl runs args checksums context rest) _ h3 in
      let (expected, stable) = validate_result-Stable result mode context args checksums valid in
      subst (All Stable) (ok-injective h4) (
        rw
            (
              get-set_field_other count_before (codes "mode") (str mode) result refl,
              get-set_field_other count_after (codes "mode") (str mode) result refl,
            )
            stable,
        run_modes-Stable runs args checksums context rest more ran_more,
      )

  pub run_contexts-Stable :
      (runs : Runs fl) (args : Arguments) (checksums : Checksums F) (contexts : List ℤ)
      (raw : List (Fields F))
      → run_contexts fl runs args checksums contexts ≡ ok raw
      → All Stable raw
  unfolding run_contexts
  run_contexts-Stable runs args checksums [] raw h = subst (All Stable) (ok-injective h) tt
  run_contexts-Stable runs args checksums (context ∷ rest) raw h =
      let (results, ran, h1) =
        >>=-eq-ok (run_modes fl runs args checksums context (modes_of args.int8_first)) _ h in
      let (more, ran_more, h2) = >>=-eq-ok (run_contexts fl runs args checksums rest) _ h1 in
      subst (All Stable) (ok-injective h2) (
        All-append Stable results more
          (run_modes-Stable runs args checksums context (modes_of args.int8_first) results ran)
          (run_contexts-Stable runs args checksums rest more ran_more))

  pub allocation_stable-true :
      (raw : List (Fields F)) (stable : Bool)
      → All Stable raw
      → allocation_stable fl raw ≡ ok stable
      → stable ≡ true
  unfolding allocation_stable
  allocation_stable-true [] stable s h = sym (ok-injective h)
  allocation_stable-true (result ∷ rest) stable s h =
      let (before, b, h1) = >>=-eq-ok (index result count_before) _ h in
      let (after, a, h2) = >>=-eq-ok (index result count_after) _ h1 in
      let same_count : eq_value fl before after ≡ true =
        rw (index-get count_before result before b, index-get count_after result after a) s.0 in
      allocation_stable-true rest stable s.1 (rw same_count at h2)
