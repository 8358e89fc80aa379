-- ===== src/Stream.antt =====
-- packages/provider-core/src/openai-compat.ts and errors.ts: the events of `stream`, the outcomes of
-- `stream`, `complete` and `embed`, and `classifyProviderError`. Requests go out over HTTP, so what
-- the exchange comes to is an argument, with the milliseconds since its start. `ENCODER`, the
-- decoder that the streams share, is a parameter with its state, as is `JSON.parse`. Chunks has the
-- text of a stream against its chunks, Agreement the kinds against those of the router.
pub mod Chunks
pub mod Agreement
use Prim.Native.String
use mathlib.Core.Option
use freellm_gateway.Base.{
  ℕ, ◌+◌, ◌<◌, String, Bool, true, false, not, ◌&&◌, ◌||◌, Option, none, some, List, [], ◌∷◌, ◌++◌,
  ◌⊎◌, inl, inr, ◌==◌, eq_nat, eq_units, eq_string, if◌then◌else◌, ltb, leb, is_some, or_else,
}
use freellm_gateway.Errors.{
  ErrorKind, bad_request, auth_failure, balance_insufficient, forbidden, not_found, timeout,
  context_overflow, unsupported_capability, rate_limited, content_filter, provider_unavailable,
  network_error, invalid_response, unknown, kind_name,
}
use freellm_gateway.Classify.{some_match}
use freellm_gateway.Classify.Regex.{words, units}
use freellm_gateway.Keys.Secret.{after_prefix, trim}
use freellm_gateway.Executor.{CallOutcome}

-- `classifyProviderError` of a thrown error, with its message and name.
unfoldable pub kind_of_thrown : String → String → ErrorKind
unfolding some_match
kind_of_thrown message name =
    if some_match (words "abort" [] ∷ words "timeout" [] ∷ []) message || name == "AbortError"
    then timeout
    else network_error

-- `classifyProviderError` of a status.
unfoldable pub kind_of_status : ℕ → ErrorKind
kind_of_status status =
    if status == 400
    then bad_request
    else if status == 401
    then auth_failure
    else if status == 402
    then balance_insufficient
    else if status == 403
    then forbidden
    else if status == 404
    then not_found
    else if status == 408
    then timeout
    else if status == 413
    then context_overflow
    else if status == 422
    then unsupported_capability
    else if status == 429
    then rate_limited
    else if status == 451
    then content_filter
    else if leb 500 status && ltb status 600
    then provider_unavailable
    else unknown

unfoldable pub is_retriable : ErrorKind → Bool
is_retriable rate_limited = true
is_retriable timeout = true
is_retriable network_error = true
is_retriable provider_unavailable = true
is_retriable invalid_response = true
is_retriable _ = false

-- What a request comes to: no success status, with the body's text; a body; a body whose JSON does
-- not parse, or an error of `fetch`, with its message and name.
pub data Exchange (B : Type 0) : Type 0 where
  refused : ℕ → String → Exchange B
  accepted : ℕ → B → Exchange B
  threw : String → String → Exchange B

-- `complete`, and `embed`, which treats its own request the same way: the response, none for the empty one, and the outcome. `clip` cuts a text
-- to 500 characters.
unfoldable pub complete : {B : Type 0} → (String → String) → ℕ → Exchange B → Option B × CallOutcome
unfolding kind_of_thrown kind_of_status kind_name
complete clip elapsed (refused status text) = (
  none,
  record {
    ok = false;
    duration_ms = elapsed;
    first_token_ms = none;
    status = some status;
    error_kind = some (kind_name (kind_of_status status));
    error_message = some (clip text);
  },
)
complete clip elapsed (accepted status body) = (
  some body,
  record {
    ok = true;
    duration_ms = elapsed;
    first_token_ms = none;
    status = some status;
    error_kind = none;
    error_message = none;
  },
)
complete clip elapsed (threw message name) = (
  none,
  record {
    ok = false;
    duration_ms = elapsed;
    first_token_ms = none;
    status = none;
    error_kind = some (kind_name (kind_of_thrown message name));
    error_message = some message;
  },
)

unfoldable pub embed : {B : Type 0} → (String → String) → ℕ → Exchange B → Option B × CallOutcome
unfolding complete
embed clip elapsed exchange = complete clip elapsed exchange

-- `buf.indexOf('\n')` with the two slices around it.
unfoldable pub split_line : List ℕ → Option (List ℕ × List ℕ)
split_line [] = none
split_line (c ∷ cs) =
    let later = split_line cs in
    if c == b'\n'
    then some ([], cs)
    else elim later [ none ↦ none | some (line, rest) ↦ some (c ∷ line, rest) ]

-- A unit before the first line.
abbrev pub extend : ℕ → List (List ℕ) × List ℕ → List (List ℕ) × List ℕ
extend c ([], rest) = ([], c ∷ rest)
extend c (line ∷ lines, rest) = ((c ∷ line) ∷ lines, rest)

-- The lines that the inner loop takes off the buffer, and what it leaves there.
unfoldable pub lines_of : List ℕ → List (List ℕ) × List ℕ
lines_of [] = ([], [])
lines_of (c ∷ cs) =
    let later = lines_of cs in if c == b'\n' then ([] ∷ later.0, later.1) else extend c later

-- How a stream ends: at the end of the body, at the event that closes it, at a chunk that does not parse, with the
-- error's message, or at an error of the body, with its message and name.
pub data Stop : Type 0 where
  ended done : Stop
  corrupt : String → Stop
  broken : String → String → Stop

pub data Line (Chunk : Type 0) : Type 0 where
  skipped last : Line Chunk
  event : Chunk → Line Chunk
  unreadable : String → Line Chunk

-- A read of the body: bytes, with the milliseconds since the start, or an error.
pub data Read : Type 0 where
  got : ℕ → List ℕ → Read
  failed : String → String → Read

-- The platform's parts: a decoder that keeps the bytes of an unfinished character, and `JSON.parse`,
-- which gives a value or throws.
pub record Platform (Chunk : Type 0) : Type 1 where
  pub Decoder : Type 0
  pub decode : Decoder → List ℕ → Decoder × List ℕ
  pub parse : List ℕ → String ⊎ Chunk

module _ {Chunk : Type 0} (P : Platform Chunk) where
  open P use {Decoder}

  unfoldable pub read_payload : List ℕ → Line Chunk
  unfolding units
  read_payload payload =
      if payload == units "[DONE]"
      then last
      else elim (P.parse payload) [ inl message ↦ unreadable message | inr chunk ↦ event chunk ]

  unfoldable pub read_line : List ℕ → Line Chunk
  unfolding units trim read_payload
  read_line raw = elim (after_prefix (units "data:") (trim raw)) [
    | none ↦ skipped
    | some rest ↦ read_payload (trim rest)
  ]

  -- The chunks of a line before those of later lines, and where they stop the stream.
  abbrev pub then_line : Line Chunk → List Chunk × Option Stop → List Chunk × Option Stop
  then_line skipped later = later
  then_line last later = ([], some done)
  then_line (event chunk) (chunks, stop) = (chunk ∷ chunks, stop)
  then_line (unreadable message) later = ([], some (corrupt message))

  unfoldable pub read_lines : List (List ℕ) → List Chunk × Option Stop
  unfolding read_line
  read_lines [] = ([], none)
  read_lines (l ∷ ls) = then_line (read_line l) (read_lines ls)

  -- The variables of the generator when it returns: what it yielded, why it stopped, the time of the
  -- first bytes, and the shared decoder.
  pub record Streamed : Type 0 where
    pub chunks : List Chunk
    pub stop : Stop
    pub first_token_ms : Option ℕ
    pub decoder : Decoder

  -- The generator goes on to the next read unless a line stopped it.
  abbrev pub then_read : List Chunk × Option Stop → ℕ → Decoder → Streamed → Streamed
  then_read (chunks, none) first d later = record later { chunks = chunks ++ later.chunks }
  then_read (chunks, some stop) first d later = record {
    chunks = chunks;
    stop = stop;
    first_token_ms = some first;
    decoder = d;
  }

  -- The outer loop, with the buffer.
  unfoldable pub read_body : List ℕ → Option ℕ → Decoder → List Read → Streamed
  unfolding lines_of read_lines
  read_body buf first d [] = record {
    chunks = [];
    stop = ended;
    first_token_ms = first;
    decoder = d;
  }
  read_body buf first d (failed message name ∷ reads) = record {
    chunks = [];
    stop = broken message name;
    first_token_ms = first;
    decoder = d;
  }
  read_body buf first d (got elapsed bytes ∷ reads) =
      let (d', text) = P.decode d bytes in
      let (lines, buf') = lines_of (buf ++ text) in
      let first' = or_else first elapsed in
      let later = read_body buf' (some first') d' reads in
      then_read (read_lines lines) first' d' later

  -- `errorKind` and `errorMessage`.
  unfoldable pub error_of : Stop → Option (ErrorKind × String)
  unfolding kind_of_thrown
  error_of ended = none
  error_of done = none
  error_of (corrupt message) =
      some (invalid_response, Prim.Native.String.◌++◌ "bad stream chunk: " message)
  error_of (broken message name) = some (kind_of_thrown message name, message)

  -- `outcome()` once the generator has returned, `elapsed` milliseconds after the start.
  unfoldable pub outcome : ℕ → ℕ → Streamed → CallOutcome
  unfolding error_of kind_name
  outcome status elapsed s = record {
    ok = not (is_some (error_of s.stop));
    duration_ms = elapsed;
    first_token_ms = s.first_token_ms;
    status = some status;
    error_kind = Option.map (λ e. kind_name e.0) (error_of s.stop);
    error_message = elim (error_of s.stop) [
      | none ↦ none
      | some (kind, message) ↦ if message == "" then none else some message
    ];
  }

  -- `stream`: the reads of an accepted body, or the text of a refusal.
  unfoldable pub stream :
      (String → String)
      → ℕ
      → Decoder
      → Exchange (List Read)
      → Option (List Chunk × CallOutcome × Decoder)
  unfolding read_body outcome kind_of_status kind_name
  stream clip elapsed d (threw message name) = none
  stream clip elapsed d (refused status text) = some (
    [],
    record {
      ok = false;
      duration_ms = elapsed;
      first_token_ms = none;
      status = some status;
      error_kind = some (kind_name (kind_of_status status));
      error_message = some (clip text);
    },
    d,
  )
  stream clip elapsed d (accepted status reads) =
      let s = read_body [] none d reads in some (s.chunks, outcome status elapsed s, s.decoder)
