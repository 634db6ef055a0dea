-- ===== src/Server/Outcomes.antt =====
-- The twenty concurrent requests of scripts/openai_smoke_test.py. `as_completed` yields them in an
-- order of its own, which is a parameter.
use tinyllama_inference_engi.Prelude.{
  ℕ, suc, ◌≡◌, refl, sym, ap, ◌∙◌, ◌≢◌, ◌⊎◌, inl, inr, Bool, true, ◌&&◌, not, List, [], ◌∷◌, ◌++◌,
  map, arith, ltb, ◌==◌, if◌then◌else◌, Bool-cases, length, Text, codes,
}
use mathlib.Core.Logic.{∥∥₁_elim}
use native.Mathlib.Nat.{ℕ_set}
use mathlib.Core.List.{Perm}
use mathlib.Core.List.{Permᴰ}
use tinyllama_inference_engi.Prelude.Strings.{count}
use tinyllama_inference_engi.Prelude.Int.{pos, eqb_ℤ}
use tinyllama_inference_engi.Result.{
  Result, ok, runtime_error, ◌>>=◌, raise_if, >>=-eq-ok, ok-injective,
}
use tinyllama_inference_engi.Json.Floats.{Floats}
use tinyllama_inference_engi.Json.{str}
use tinyllama_inference_engi.Json.Equal.{eq_value}
use tinyllama_inference_engi.Server.{
  Loads, Http, Streaming, concurrent_request, request_json, completion, object_of, error_code,
}
use tinyllama_inference_engi.Snapshot.{decimal}
use tinyllama_inference_engi.Server.Stream.{streaming_completion-cancelled}

-- `range(20)`
abbrev pub indices : List ℕ
indices =
    0 ∷ 1 ∷ 2 ∷ 3 ∷ 4 ∷ 5 ∷ 6 ∷ 7 ∷ 8 ∷ 9 ∷ 10 ∷ 11 ∷ 12 ∷ 13 ∷ 14 ∷ 15 ∷ 16 ∷ 17 ∷ 18 ∷ 19 ∷ []

-- The checks of the counts
unfoldable pub is_complete : List Text → Bool
is_complete outcomes =
    length outcomes == 20
    && (count (codes "completed") outcomes == 12
        && (count (codes "timeout") outcomes == 4 && count (codes "cancelled") outcomes == 4))

-- What the request of an index is to come to
unfoldable pub intended : ℕ → Text
intended index =
    if ltb index 12
    then codes "completed"
    else if ltb index 16
    then codes "timeout"
    else codes "cancelled"

-- How often each text is intended does not depend on the order.
count-map-intended :
    {xs ys : List ℕ} (t : Text)
    → Permᴰ xs ys
    → count t (map intended xs) ≡ count t (map intended ys)
unfolding count
count-map-intended t Permᴰ.nil = refl
count-map-intended t (Permᴰ.cons e p) = grind (arith, e, count-map-intended t p)
count-map-intended t (Permᴰ.swap e d) = grind (arith, e, d)
count-map-intended t (Permᴰ.trans p q) = count-map-intended t p ∙ count-map-intended t q

length-map-intended :
    {xs ys : List ℕ} → Permᴰ xs ys → length (map intended xs) ≡ length (map intended ys)
length-map-intended Permᴰ.nil = refl
length-map-intended (Permᴰ.cons e p) = ap suc (length-map-intended p)
length-map-intended (Permᴰ.swap e d) = refl
length-map-intended (Permᴰ.trans p q) = length-map-intended p ∙ length-map-intended q

intended_complete : is_complete (map intended indices) ≡ true
unfolding is_complete intended count
intended_complete = refl

is_complete-intended :
    {order : List ℕ} → Perm order indices → is_complete (map intended order) ≡ true
unfolding is_complete
is_complete-intended {order} p =
    let counted : (t : Text) → count t (map intended order) ≡ count t (map intended indices) =
      λ t. ∥∥₁_elim p (ℕ_set _ _) (count-map-intended t) in
    let sized : length (map intended order) ≡ length (map intended indices) =
      ∥∥₁_elim p (ℕ_set _ _) length-map-intended in
    rw (sized, counted (codes "completed"), counted (codes "timeout"), counted (codes "cancelled"))
      intended_complete

-- A list without an invalid outcome has none at its head.
count_none :
    (outcome : Text) (rest : List Text)
    → count (codes "invalid") (outcome ∷ rest) ≡ 0
    → (outcome ≢ codes "invalid") × (count (codes "invalid") rest ≡ 0)
unfolding count
count_none outcome rest n = (λ e. absurd (omega (arith, rw e at n)), omega (arith, n))

module _ (fl : Floats) where
  open fl use {F}

  unfoldable pub collect_outcomes : Loads F → Http F → Streaming F → List ℕ → Result (List Text)
  collect_outcomes loads http server [] = ok []
  collect_outcomes loads http server (index ∷ order) = do
    outcome ← concurrent_request fl loads http server index
    outcomes ← collect_outcomes loads http server order
    ok (outcome ∷ outcomes)

  module _ (loads : Loads F) (http : Http F) (server : Streaming F) where
    concurrent_request-intended :
        (index : ℕ) (r : Text)
        → concurrent_request fl loads http server index ≡ ok r
        → (r ≡ intended index) ⊎ (r ≡ codes "invalid")
    unfolding concurrent_request intended
    concurrent_request-intended index r h = elim (Bool-cases (ltb index 12)) [
      | inl low ↦
          let (answer, answered, h1) =
            >>=-eq-ok
              (request_json loads http
                (completion fl (codes "Say the number " ++ (decimal index ++ codes ".")) 2 60000))
              _ (rw low at h) in
          let (u, status, h2) =
            >>=-eq-ok
              (raise_if (not (eqb_ℤ answer.0 (pos 200))) (runtime_error "normal request failed")) _
              h1 in
          let (object, found, h3) = >>=-eq-ok (object_of answer.1) _ h2 in
          let (u1, named, h4) =
            >>=-eq-ok
              (raise_if (not (eq_value fl object (str (codes "chat.completion"))))
                (runtime_error "normal request failed"))
              _ h3 in
          inl (rw low (sym (ok-injective h4)))
      | inr high ↦ elim (Bool-cases (ltb index 16)) [
        | inl mid ↦
            let (answer, answered, h1) =
              >>=-eq-ok
                (request_json loads http
                  (completion fl (codes "Timeout request " ++ (decimal index ++ codes ".")) 16 1))
                _ (rw (high, mid) at h) in
            let (u, status, h2) =
              >>=-eq-ok
                (raise_if (not (eqb_ℤ answer.0 (pos 408)))
                  (runtime_error "timeout request was not cancelled"))
                _ h1 in
            let (code, found, h3) = >>=-eq-ok (error_code answer.1) _ h2 in
            let (u1, named, h4) =
              >>=-eq-ok
                (raise_if (not (eq_value fl code (str (codes "request_cancelled"))))
                  (runtime_error "timeout request was not cancelled"))
                _ h3 in
            inl (rw (high, mid) (sym (ok-injective h4)))
        | inr top ↦
            elim (streaming_completion-cancelled fl loads server
              (codes "Cancel stream " ++ (decimal index ++ codes ".")) r (rw (high, top) at h)) [
                | inl cancelled ↦ inl (rw (high, top) cancelled)
                | inr invalid ↦ inr invalid
              ]
      ]
    ]

    collect_outcomes-intended :
        (order : List ℕ) (outcomes : List Text)
        → collect_outcomes loads http server order ≡ ok outcomes
        → count (codes "invalid") outcomes ≡ 0
        → outcomes ≡ map intended order
    unfolding collect_outcomes
    collect_outcomes-intended [] outcomes h n = sym (ok-injective h)
    collect_outcomes-intended (index ∷ order) outcomes h n =
        let (outcome, here, h1) = >>=-eq-ok (concurrent_request fl loads http server index) _ h in
        let (rest, later, h2) = >>=-eq-ok (collect_outcomes loads http server order) _ h1 in
        let (valid, others) =
          count_none outcome rest (ap (count (codes "invalid")) (ok-injective h2) ∙ n) in
        elim (concurrent_request-intended index outcome here) [
          | inl e ↦
              sym (ok-injective h2)
              ∙ (ap (λ o. o ∷ rest) e
                  ∙ ap (λ l. intended index ∷ l)
                      (collect_outcomes-intended order rest later others))
          | inr e ↦ absurd (valid e)
        ]

    -- If every request comes to an outcome and no stream is invalid, the outcomes are complete,
    -- whatever the order in which the requests finish: twelve completed, four timeouts, four
    -- cancelled.
    pub collect_outcomes_complete :
        (order : List ℕ) (outcomes : List Text)
        → Perm order indices
        → collect_outcomes loads http server order ≡ ok outcomes
        → count (codes "invalid") outcomes ≡ 0
        → is_complete outcomes ≡ true
    collect_outcomes_complete order outcomes p h n =
        ap is_complete (collect_outcomes-intended order outcomes h n) ∙ is_complete-intended p
