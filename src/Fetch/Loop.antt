-- ===== src/Fetch/Loop.antt =====
-- crates/pkdump-ingest/src/landing.rs: `fetch_bytes`, with a log of what it does.
use pokedumpster.Base.{
  Text, codes, ℕ, zero, suc, ◌+◌, Option, none, some, List, [], ◌∷◌, ◌++◌, Bool, ◌&&◌,
  if◌then◌else◌,
}
use pokedumpster.Fetch.Retry.{should_retry, delay_after}
use pokedumpster.Fetch.Attempt.{
  Body, Answer, Fetched, Failed, Attempted, fetched, failed, attempt, IngestError, bad_response,
  http, Result, ok, err, ReplaySource, Wire,
}

-- The requests made, the nanoseconds slept, the failures recorded in the manifest and the bodies landed.
pub record Log : Type 0 where
  pub requests : ℕ
  pub slept : ℕ
  pub failures : List (Option ℕ × Text)
  pub landed : List Body

abbrev pub quiet : Log
quiet = record { requests = 0; slept = 0; failures = []; landed = [] }

-- How the loop ends; `out_of_fuel` has no counterpart in the program.
pub data Ended : Type 0 where
  recovered : Fetched → Ended
  gave_up : IngestError → Ended
  out_of_fuel : Ended

abbrev pub asked : Log → Log
asked log = record log { requests = suc log.requests }

-- `note`: without a landing there is no manifest.
abbrev pub note : Option (Fetched → Result (Unit {0})) → Failed → Log → Log
note none f log = log
note (some land) f log = record log { failures = log.failures ++ (f.status, f.text) ∷ [] }

-- One attempt that came to an end: done, given up, or slept before the next one, which is `again`.
abbrev pub after : Wire → ℕ → Log → Attempted → (Log → Ended × Log) → Ended × Log
after w n log (fetched f) again = (recovered f, log)
after w n log (failed f) again =
    if f.retryable && should_retry w.retry n
    then again (record log { slept = log.slept + delay_after w.retry n })
    else (gave_up (http f.text), note w.landing f log)

-- The loop at attempt `n`; `answer` is what the client says to each attempt.
unfoldable pub fetch_loop : Wire → (ℕ → Answer) → ℕ → ℕ → Log → Ended × Log
unfolding attempt should_retry delay_after
fetch_loop w answer zero n log = (out_of_fuel, log)
fetch_loop w answer (suc fuel) n log =
    after w n (asked log) (attempt (answer n)) λ log'. fetch_loop w answer fuel (n + 1) log'

abbrev pub landed_with : Body → Log → Result (Unit {0}) → Option (Result Body) × Log
landed_with body log (ok u) = (some (ok body), record log { landed = log.landed ++ body ∷ [] })
landed_with body log (err e) = (some (err e), log)

abbrev pub land : Option (Fetched → Result (Unit {0})) → Fetched → Log → Option (Result Body) × Log
land none f log = (some (ok f.body), log)
land (some put) f log = landed_with f.body log (put f)

abbrev pub closed : Wire → Ended × Log → Option (Result Body) × Log
closed w (recovered f, log) = land w.landing f log
closed w (gave_up e, log) = (some (err e), log)
closed w (out_of_fuel, log) = (none, log)

abbrev pub replayed : ReplaySource → Text → Result (Option Body) → Result Body
replayed r url (ok (some body)) = ok body
replayed r url (ok none) = err (r.missing url)
replayed r url (err e) = err e

abbrev pub over :
    Wire → Text → Bool → (ℕ → Answer) → Option ReplaySource → Option (Result Body) × Log
over w url can_clone answer (some r) = (some (replayed r url (r.body url)), quiet)
over w url can_clone answer none =
    if can_clone then closed w (fetch_loop w answer w.retry.attempts 1 quiet) else (
      some (
          err (
            bad_response
              (url ++ codes ": request body cannot be replayed, so the fetch cannot be retried"))),
      quiet,
    )

-- The body, or the error; a request whose body cannot be sent again is refused before the first one.
unfoldable pub fetch_bytes : Wire → Text → Bool → (ℕ → Answer) → Option (Result Body) × Log
unfolding fetch_loop
fetch_bytes w url can_clone answer = over w url can_clone answer w.replay
