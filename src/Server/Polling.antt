-- ===== src/Server/Polling.antt =====
-- `wait_ready` and `wait_drained` of scripts/openai_smoke_test.py. A loop is run on the list of the
-- polls that it makes, with what the clock, the process and the server say at each of them, and
-- has no result as long as it still polls.
use tinyllama_inference_engi.Prelude.{
  Bool, true, false, not, Option, none, some, List, [], ◌∷◌, if◌then◌else◌, Text, codes,
}
use tinyllama_inference_engi.Prelude.Int.{ℤ, pos, eqb_ℤ}
use tinyllama_inference_engi.Result.{
  Result, Error, ok, err, runtime_error, os_error, timeout_error, file_not_found, ◌>>=◌,
}
use tinyllama_inference_engi.Json.{Value, str, subscript}
use tinyllama_inference_engi.Json.Floats.{Floats}
use tinyllama_inference_engi.Json.Equal.{eq_value, to_int}
use tinyllama_inference_engi.Server.{object_of}

-- One poll: `time.monotonic() < deadline`, `process.poll() is not None` (of `wait_ready` only),
-- and what `request_json` returns
pub record Poll (F : Type 0) : Type 0 where
  pub in_time : Bool
  pub exited : Bool
  pub answer : Result (ℤ × Value F)

-- `except (ConnectionError, OSError, TimeoutError)`
abbrev pub is_os_error : Error → Bool
is_os_error (os_error m) = true
is_os_error (timeout_error m) = true
is_os_error (file_not_found m) = true
is_os_error _ = false

-- The three gauges of `/metrics` that are zero when nothing runs
abbrev pub gauges : List Text
gauges = codes "queued_requests" ∷ codes "active_sequences" ∷ codes "kv_blocks_used" ∷ []

module _ (fl : Floats) where
  open fl use {F}

  -- `status == 200 and response.get("object") == "list"`
  unfoldable pub is_listing : ℤ → Value F → Result Bool
  is_listing status response =
      if eqb_ℤ status (pos 200)
      then (do object ← object_of response; ok (eq_value fl object (str (codes "list"))))
      else ok false

  -- How the body of the loop ends: with the listing, or with another poll
  abbrev pub retry : Result Bool → Option (Result (Unit {0})) → Option (Result (Unit {0}))
  retry (ok true) again = some (ok tt)
  retry (ok false) again = again
  retry (err e) again = if is_os_error e then again else some (err e)

  abbrev pub listing : Poll F → Result Bool
  listing p = do (status, response) ← p.answer; is_listing status response

  unfoldable pub wait_ready : List (Poll F) → Option (Result (Unit {0}))
  wait_ready [] = none
  wait_ready (p ∷ rest) =
      let again = wait_ready rest in
      if not p.in_time
      then some (err (timeout_error "server did not become ready"))
      else if p.exited
      then some (err (runtime_error "server exited before ready"))
      else retry (listing p) again

  -- `all(int(latest[field]) == 0 for field in fields)`
  unfoldable pub all_zero : List Text → Value F → Result Bool
  all_zero [] latest = ok true
  all_zero (key ∷ keys) latest =
      let later = all_zero keys latest in
      do v ← subscript latest key; n ← to_int fl v; if eqb_ℤ n (pos 0) then later else ok false

  -- `status == 200 and all(...)`, with the answer if it holds
  unfoldable pub is_drained : ℤ → Value F → Result (Option (Value F))
  unfolding all_zero
  is_drained status latest =
      if eqb_ℤ status (pos 200)
      then (do idle ← all_zero gauges latest; ok (if idle then some latest else none))
      else ok none

  abbrev pub drained_or :
      Result (Option (Value F)) → Option (Result (Value F)) → Option (Result (Value F))
  drained_or (ok (some latest)) again = some (ok latest)
  drained_or (ok none) again = again
  drained_or (err e) again = some (err e)

  abbrev pub draining : Poll F → Result (Option (Value F))
  draining p = do (status, latest) ← p.answer; is_drained status latest

  unfoldable pub wait_drained : List (Poll F) → Option (Result (Value F))
  unfolding is_drained
  wait_drained [] = none
  wait_drained (p ∷ rest) =
      let again = wait_drained rest in
      if not p.in_time
      then some (err (timeout_error "scheduler did not drain"))
      else drained_or (draining p) again
