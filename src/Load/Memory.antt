-- ===== src/Load/Memory.antt =====
-- `validate_memory_stability` and `validate_request_accounting` of scripts/load_test.py: what they
-- compare.
use tinyllama_inference_engi.Prelude.{
  or_false, ltb-false, ℕ, zero, suc, ◌+◌, ◌-◌, ◌*◌, ◌≤◌, min, ◌≡◌, refl, sym, ap, ◌∙◌, ◌↔◌, Bool,
  true, ◌&&◌, ◌||◌, not, List, [], ◌∷◌, ◌++◌, arith, ltb, length, take, drop, all, length-take,
  length-drop, take-append-drop, Text, codes,
}
use tinyllama_inference_engi.Prelude.Int.{ℤ, pos, negsuc, eqb_ℤ, leb_ℤ, ◌+ℤ◌}
use tinyllama_inference_engi.Result.{
  Result, ok, value_error, raise_if, >>=-eq-ok, raise_if-eq-ok, ok-injective,
}
use tinyllama_inference_engi.Json.Floats.{Floats}
use tinyllama_inference_engi.Json.{Fields, boolean, int, float, get, get_or}
use tinyllama_inference_engi.Json.Equal.{to_int}
use tinyllama_inference_engi.Load.{
  discarded_warmup, window_of, last_items, validate_memory_stability, validate_request_accounting,
  Accounting,
}

-- The samples fall into the warm-up, the two windows, and what lies between these.
pub record Windows {A : Type 0} (samples : List A) : Type 0 where
  pub warmup : List A
  pub first : List A
  pub between : List A
  pub last : List A
  pub parts : samples ≡ warmup ++ (first ++ (between ++ last))
  pub same_length : length first ≡ length last
  pub at_least_two : 2 ≤ length first
  pub at_most_thirty : length first ≤ 30
  pub warmup_short : (1 ≤ length warmup) × (length warmup ≤ 60)

-- Half of the settled samples at most lie in the windows.
window_fits : (n : ℕ) → 8 ≤ n → 2 * window_of (n - discarded_warmup n) ≤ n - discarded_warmup n
unfolding window_of discarded_warmup
window_fits n h = omega arith

window-bounds : (n : ℕ) → (2 ≤ window_of n) × (window_of n ≤ 30)
unfolding window_of
window-bounds n = (omega arith, omega arith)

discarded-bounds :
    (n : ℕ) → 8 ≤ n → (1 ≤ min (discarded_warmup n) n) × (min (discarded_warmup n) n ≤ 60)
unfolding discarded_warmup
discarded-bounds n h = (omega arith, omega arith)

module _ {A : Type 0} where
  drop_nil : (n : ℕ) → drop {A = A} n [] ≡ []
  drop_nil zero = refl
  drop_nil (suc n) = refl

  drop-drop : (m n : ℕ) (xs : List A) → drop m (drop n xs) ≡ drop (n + m) xs
  drop-drop m zero xs = ap (λ k. drop k xs) (omega arith)
  drop-drop m (suc n) [] = drop_nil m ∙ sym (drop_nil (suc n + m))
  drop-drop m (suc n) (x ∷ xs) =
      let e : suc (n + m) ≡ suc n + m = omega arith in
      drop-drop m n xs ∙ ap (λ k. drop k (x ∷ xs)) e

  middle_drop :
      (n : ℕ) (xs : List A)
      → 2 * n ≤ length xs
      → xs ≡ take n xs ++ (take (length xs - 2 * n) (drop n xs) ++ last_items n xs)
  middle_drop n xs h =
      let k : ℕ = length xs - 2 * n in
      let tail : drop k (drop n xs) ≡ last_items n xs =
        drop-drop k n xs ∙ ap (λ m. drop m xs) (omega (arith, h)) in
      sym (take-append-drop n xs)
      ∙ ap (λ l. take n xs ++ l)
          (sym (take-append-drop k (drop n xs)) ∙ ap (λ l. take k (drop n xs) ++ l) tail)

  unfoldable windows : (samples : List A) → 8 ≤ length samples → Windows samples
  windows samples h =
      let discarded = discarded_warmup (length samples) in
      let settled = drop discarded samples in
      let window = window_of (length settled) in
      let settled_length = length-drop discarded samples in
      let fits : 2 * window ≤ length settled = rw settled_length (window_fits (length samples) h) in
      let (wide, narrow) = window-bounds (length settled) in
      let sized : length (take window settled) ≡ window =
        omega (arith, length-take window settled, fits) in
      record {
        warmup = take discarded samples;
        first = take window settled;
        between = take (length settled - 2 * window) (drop window settled);
        last = last_items window settled;
        parts =
            sym (take-append-drop discarded samples)
            ∙ ap (λ l. take discarded samples ++ l) (middle_drop window settled fits);
        same_length = omega (arith, sized, fits, length-drop (length settled - window) settled);
        at_least_two = omega (arith, sized, wide);
        at_most_thirty = omega (arith, sized, narrow);
        warmup_short = rw (length-take discarded samples) (discarded-bounds (length samples) h);
      }

-- The test of an account, and what it says of the four counters
balances : (submitted completed cancelled failed : ℤ) → Bool
balances submitted completed cancelled failed =
    all (leb_ℤ (pos 0)) (submitted ∷ completed ∷ cancelled ∷ failed ∷ [])
    && (eqb_ℤ failed (pos 0) && eqb_ℤ (completed +ℤ cancelled +ℤ failed) submitted)

balances_sound :
    (s c x f : ℤ)
    → balances s c x f ≡ true
    → (n m : ℕ) × (c ≡ pos n) × (x ≡ pos m) × (f ≡ pos 0) × (s ≡ pos (n + m))
unfolding balances
balances_sound (pos s) (pos c) (pos x) (pos f) h =
    let none_failed : f ≡ 0 = ground arith in
    let all_ended : s ≡ c + x = ground arith in
    (c, x, refl, refl, ap pos none_failed, ap pos all_ended)
balances_sound (negsuc s) c x f h = absurd (ground arith)
balances_sound (pos s) (negsuc c) x f h = absurd (ground arith)
balances_sound (pos s) (pos c) (negsuc x) f h = absurd (ground arith)
balances_sound (pos s) (pos c) (pos x) (negsuc f) h = absurd (ground arith)

balances_complete :
    (s c x f : ℤ)
    → (n m : ℕ) × (c ≡ pos n) × (x ≡ pos m) × (f ≡ pos 0) × (s ≡ pos (n + m))
    → balances s c x f ≡ true
unfolding balances
balances_complete s c x f (n, m, hc, hx, hf, hs) = rw (hc, hx, hf, hs) (ground arith)

module _ (fl : Floats) where
  open fl use {F, is_finite, fle, literal, sub, median}

  -- What a verdict on the memory rests on: the medians of the two windows of the samples
  pub record Compared (samples : List F) (limit_mib : F) (report : Fields F) : Type 0 where
    pub windows : Windows samples
    pub first : F
    pub last : F
    pub first_median : median windows.first ≡ ok first
    pub last_median : median windows.last ≡ ok last
    pub growth : get (codes "growth_mib") report ≡ float (sub last first)
    pub verdict : get (codes "passed") report ≡ boolean (fle (sub last first) limit_mib)

  -- Every verdict on the stability of the memory compares the medians of two windows that do not
  -- overlap, have the same length from 2 to 30, and come after one to sixty discarded samples.
  pub validate_memory_stability-Compared :
      (samples : List F) (limit_mib : F) (report : Fields F)
      → validate_memory_stability fl samples limit_mib ≡ ok report
      → Compared samples limit_mib report
  unfolding validate_memory_stability windows
  validate_memory_stability-Compared samples limit_mib report h =
      let settled : List F = drop (discarded_warmup (length samples)) samples in
      let window : ℕ = window_of (length settled) in
      let (u, valid, h1) =
        >>=-eq-ok
          (raise_if
            (ltb (length samples) 8 || not (all (λ v. is_finite v && fle (literal 0 1) v) samples))
            (value_error "stability run has too few valid GPU memory samples"))
          _ h in
      let (first, before, h2) = >>=-eq-ok (median (take window settled)) _ h1 in
      let (last, after, h3) = >>=-eq-ok (median (last_items window settled)) _ h2 in
      let (several, finite) =
        or_false (ltb (length samples) 8)
          (not (all (λ v. is_finite v && fle (literal 0 1) v) samples))
          (raise_if-eq-ok _ _ valid) in
      record {
        windows = windows samples (ltb-false _ _ several);
        first = first;
        last = last;
        first_median = before;
        last_median = after;
        growth = ap (get (codes "growth_mib")) (sym (ok-injective h3));
        verdict = ap (get (codes "passed")) (sym (ok-injective h3));
      }

  -- The account of the requests balances exactly if no counter is negative, no request has failed,
  -- and the completed and cancelled ones together are the submitted ones.
  pub validate_request_accounting-↔ :
      (metrics : Fields F) (a : Accounting fl)
      → validate_request_accounting fl metrics ≡ ok a
      → (a.passed ≡ true)
        ↔ (n m : ℕ) × (a.completed_total ≡ pos n)
          × (a.cancelled_total ≡ pos m)
          × (a.failed_total ≡ pos 0)
          × (a.submitted_total ≡ pos (n + m))
  unfolding validate_request_accounting balances
  validate_request_accounting-↔ metrics a h =
      let count : Text → Result ℤ = λ key. to_int fl (get_or (int (negsuc 0)) key metrics) in
      let (s, hs, h1) = >>=-eq-ok (count (codes "submitted_total")) _ h in
      let (c, hc, h2) = >>=-eq-ok (count (codes "completed_total")) _ h1 in
      let (x, hx, h3) = >>=-eq-ok (count (codes "cancelled_total")) _ h2 in
      let (f, hf, h4) = >>=-eq-ok (count (codes "failed_total")) _ h3 in
      rw (← ok-injective h4) (balances_sound s c x f, balances_complete s c x f)
