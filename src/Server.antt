-- ===== src/Server.antt =====
-- The requests of scripts/openai_smoke_test.py to the server: their bodies, `request_json`, one
-- streamed completion, and the requests of the concurrency test. The server and the parser of JSON
-- are parameters.
pub mod Polling
pub mod Polled
pub mod Stream
pub mod Outcomes
pub mod Smoke
pub mod Passed
use tinyllama_inference_engi.Prelude.{
  ℕ, suc, Bool, true, false, ◌&&◌, not, Option, some, List, [], ◌∷◌, ◌++◌, ltb, leb, ◌==◌,
  if◌then◌else◌, length, Text, codes, same,
}
use tinyllama_inference_engi.Prelude.Int.{ℤ, pos, eqb_ℤ}
use tinyllama_inference_engi.Prelude.Strings.{starts_with, remove_prefix, strip}
use tinyllama_inference_engi.Result.{Result, ok, runtime_error, ◌>>=◌, ◌>>◌, raise_if}
use tinyllama_inference_engi.Json.{
  Value, Fields, boolean, int, float, str, arr, obj, nil, cons, end, field, get, as_dict, get_or,
}
use tinyllama_inference_engi.Json.Floats.{Floats}
use tinyllama_inference_engi.Json.Equal.{eq_value}
use tinyllama_inference_engi.Snapshot.{decimal}

-- What `HTTPConnection.request` is given; the time limit is in seconds.
pub record Request (F : Type 0) : Type 0 where
  pub method : Text
  pub path : Text
  pub body : Option (Fields F)
  pub timeout : ℕ

-- The server's answer to a request: the status and the payload
abbrev pub Http : Type 0 → Type 0
Http F = Request F → Result (ℤ × Text)

-- The status and the lines of a streamed answer; to read or decode a line may raise.
abbrev pub Streaming : Type 0 → Type 0
Streaming F = Request F → Result (ℤ × List (Result Text))

abbrev pub Loads : Type 0 → Type 0
Loads F = Text → Result (Value F)

abbrev pub completions_path : Text
completions_path = codes "/v1/chat/completions"

-- `document.get("error", {}).get("code")`
abbrev pub error_code : {F : Type 0} → Value F → Result (Value F)
error_code document = do
  d ← as_dict document
  error ← as_dict (get_or (obj end) (codes "error") d)
  ok (get (codes "code") error)

abbrev pub object_of : {F : Type 0} → Value F → Result (Value F)
object_of document = do d ← as_dict document; ok (get (codes "object") d)

unfoldable pub request_json : {F : Type 0} → Loads F → Http F → Request F → Result (ℤ × Value F)
request_json loads http request = do
  (status, payload) ← http request
  document ← loads payload
  ok (status, document)

module _ (fl : Floats) where
  open fl use {F, literal}

  unfoldable pub completion_body : Text → Bool → ℕ → ℕ → Fields F
  completion_body prompt stream max_tokens timeout_ms =
      field (codes "model") (str (codes "tinyllama-1.1b")) (
        field (codes "messages")
          (arr (
            cons
              (obj (
                field (codes "role") (str (codes "user"))
                  (field (codes "content") (str prompt) end)))
              nil))
          (field (codes "stream") (boolean stream) (
            field (codes "max_tokens") (int (pos max_tokens)) (
              field (codes "temperature") (float (literal 0 1)) (
                field (codes "top_p") (float (literal 10 1))
                  (field (codes "timeout_ms") (int (pos timeout_ms)) end))))))

  abbrev pub completion : Text → ℕ → ℕ → Request F
  completion prompt max_tokens timeout_ms = record {
    method = codes "POST";
    path = completions_path;
    body = some (completion_body prompt false max_tokens timeout_ms);
    timeout = 90;
  }

  abbrev pub stream_request : Text → Bool → Request F
  stream_request prompt cancel_after_first = record {
    method = codes "POST";
    path = completions_path;
    body = some (completion_body prompt true (if cancel_after_first then 32 else 3) 60000);
    timeout = 90;
  }

  -- The loop over the lines, after `chunks` data lines. A stream at its end reads as empty lines.
  unfoldable pub read_chunks : Loads F → Bool → ℕ → List (Result Text) → Result Text
  read_chunks loads cancel chunks [] = ok (codes "invalid")
  read_chunks loads cancel chunks (reading ∷ rest) =
      let skipped = read_chunks loads cancel chunks rest in
      let continued = read_chunks loads cancel (suc chunks) rest in
      do
        line ← reading
        let content = strip (remove_prefix (codes "data: ") line)
        if length line == 0
            then ok (codes "invalid")
            else if not (starts_with (codes "data: ") line)
            then skipped
            else if cancel && not (same content (codes "[DONE]"))
            then ok (codes "cancelled")
            else if same content (codes "[DONE]")
            then ok (if leb 2 (suc chunks) then codes "completed" else codes "invalid")
            else (do
              document ← loads content
              object ← object_of document
              raise_if (not (eq_value fl object (str (codes "chat.completion.chunk"))))
                  (runtime_error "stream chunk has the wrong OpenAI object")
              continued)

  unfoldable pub streaming_completion : Loads F → Streaming F → Text → Bool → Result Text
  unfolding read_chunks
  streaming_completion loads server prompt cancel_after_first = do
    (status, lines) ← server (stream_request prompt cancel_after_first)
    raise_if (not (eqb_ℤ status (pos 200))) (runtime_error "stream returned HTTP")
    read_chunks loads cancel_after_first 0 lines

  unfoldable pub concurrent_request : Loads F → Http F → Streaming F → ℕ → Result Text
  unfolding request_json streaming_completion
  concurrent_request loads http server index =
      if ltb index 12
      then (do
        (status, response) ←
            request_json loads http
              (completion (codes "Say the number " ++ (decimal index ++ codes ".")) 2 60000)
        raise_if (not (eqb_ℤ status (pos 200))) (runtime_error "normal request failed")
        object ← object_of response
        raise_if (not (eq_value fl object (str (codes "chat.completion"))))
            (runtime_error "normal request failed")
        ok (codes "completed"))
      else if ltb index 16
      then (do
        (status, response) ←
            request_json loads http
              (completion (codes "Timeout request " ++ (decimal index ++ codes ".")) 16 1)
        raise_if (not (eqb_ℤ status (pos 408))) (runtime_error "timeout request was not cancelled")
        code ← error_code response
        raise_if (not (eq_value fl code (str (codes "request_cancelled"))))
            (runtime_error "timeout request was not cancelled")
        ok (codes "timeout"))
      else streaming_completion loads server
          (codes "Cancel stream " ++ (decimal index ++ codes ".")) true
