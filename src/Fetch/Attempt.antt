-- ===== src/Fetch/Attempt.antt =====
-- crates/pkdump-ingest/src/landing.rs: one attempt, and the wire that a fetch runs on. What the HTTP
-- client answers is a parameter.
use pokedumpster.Base.{Text, ℕ, Option, none, some, List, Bool, true, ◌&&◌, leb, ltb, if◌then◌else◌}
use pokedumpster.Fetch.Retry.{RetryPolicy, status_is_retryable}

abbrev pub Body : Type 0
Body = List ℕ

-- Nothing came back, or a status did, with its body or without the rest of it; the text is the error's.
pub data Answer : Type 0 where
  refused : Text → Answer
  answered : ℕ → Option Body → Text → Answer

pub record Fetched : Type 0 where
  pub status : ℕ
  pub body : Body

pub record Failed : Type 0 where
  pub status : Option ℕ
  pub retryable : Bool
  pub text : Text

pub data Attempted : Type 0 where
  fetched : Fetched → Attempted
  failed : Failed → Attempted

abbrev pub with_body : ℕ → Option Body → Text → Attempted
with_body status none text = failed (record { status = some status; retryable = true; text = text })
with_body status (some body) text = fetched (record { status = status; body = body })

-- `error_for_status` refuses the 4xx and the 5xx.
unfoldable pub attempt : Answer → Attempted
unfolding status_is_retryable
attempt (refused text) = failed (record { status = none; retryable = true; text = text })
attempt (answered status body text) =
    if leb 400 status && ltb status 600
    then failed
        (record { status = some status; retryable = status_is_retryable status; text = text })
    else with_body status body text

pub data IngestError : Type 0 where
  bad_response : Text → IngestError
  http : Text → IngestError
  other : Text → IngestError

pub data Result (A : Type 0) : Type 0 where
  ok : A → Result A
  err : IngestError → Result A

-- `ReplaySource`, and what a landing answers to a response; `record_failure` is only warned about.
pub record ReplaySource : Type 0 where
  pub body : Text → Result (Option Body)
  pub missing : Text → IngestError

pub record Wire : Type 0 where
  pub landing : Option (Fetched → Result (Unit {0}))
  pub replay : Option ReplaySource
  pub retry : RetryPolicy
