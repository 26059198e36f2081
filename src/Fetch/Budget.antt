-- ===== src/Fetch/Budget.antt =====
-- crates/pkdump-ingest/src/retry.rs and landing.rs: a fetch keeps to its budget, and fails with its
-- last attempt.
use pokedumpster.Base.{
  Bool, if◌then◌else◌, inl, inr, leb, ltb, ◌&&◌, Text, ℕ, suc, ◌+◌, ◌-◌, ◌*◌, ◌≤◌, ◌<◌, ◌≡◌, refl,
  ◌⊎◌, Option, none, some, [], true, false, arith, subst, sym, ◌∙◌, ap,
}
use pokedumpster.Fetch.Retry.{status_is_retryable}
use pokedumpster.Fetch.Attempt.{
  Body, Answer, refused, answered, with_body, Fetched, Attempted, fetched, failed, attempt, http,
  Result, ok, err, Wire,
}
use pokedumpster.Fetch.Loop.{
  Log, quiet, Ended, recovered, gave_up, out_of_fuel, fetch_loop, land, landed_with, closed, over,
  fetch_bytes,
}
use pokedumpster.Fetch.Runs.{recorded, IsRetryable, EndsLoop, Runs, fetch_loop-Runs}

-- A connection that failed, a 429 or a 5xx, or a body that stopped arriving.
abbrev pub IsTransient : Answer → Type 0
IsTransient (refused text) = Unit {0}
IsTransient (answered status body text) =
    (status ≡ 429)
    ⊎ ((500 ≤ status) × (status < 600))
    ⊎ (((status < 400) ⊎ (600 ≤ status)) × (body ≡ none))

either :
    (b : Bool) (x y : Attempted)
    → IsRetryable (if b then x else y)
    → ((b ≡ true) × IsRetryable x) ⊎ ((b ≡ false) × IsRetryable y)
either true x y h = inl (refl, h)
either false x y h = inr (refl, h)

unread :
    (status : ℕ) (body : Option Body) (text : Text)
    → IsRetryable (with_body status body text)
    → body ≡ none
unread status none text h = refl
unread status (some body) text h = elim h [ ]

attempt-IsTransient : (a : Answer) → IsRetryable (attempt a) → IsTransient a
unfolding attempt status_is_retryable
attempt-IsTransient (refused text) h = tt
attempt-IsTransient (answered status body text) h =
    elim (either (leb 400 status && ltb status 600)
      (failed
        (record { status = some status; retryable = status_is_retryable status; text = text }))
      (with_body status body text) h) [
        | inl (e, r) ↦ ground arith
        | inr (e, r) ↦ inr (inr (ground arith, unread status body text r))
      ]

-- What a landed body is answered with.
abbrev pub answer_to : Body → Result (Unit {0}) → Result Body
answer_to body (ok u) = ok body
answer_to body (err e) = err e

abbrev pub landing_answer : Option (Fetched → Result (Unit {0})) → Fetched → Result Body
landing_answer none f = ok f.body
landing_answer (some put) f = answer_to f.body (put f)

-- How attempt `k` decides a fetch: its body, or its error, which is then all that the manifest gets.
abbrev pub Decides : Wire → ℕ → Attempted → Option (Result Body) × Log → Type 0
Decides w k (fetched f) r = (r.0 ≡ some (landing_answer w.landing f)) × (r.1.failures ≡ [])
Decides w k (failed f) r =
    (r.0 ≡ some (err (http f.text)))
    × (r.1.failures ≡ recorded w.landing f)
    × ((f.retryable ≡ false) ⊎ (w.retry.attempts ≤ k))

landed_with_log :
    (body : Body) (log : Log) (r : Result (Unit {0}))
    → ((landed_with body log r).0 ≡ some (answer_to body r))
      × ((landed_with body log r).1.requests ≡ log.requests)
      × ((landed_with body log r).1.slept ≡ log.slept)
      × ((landed_with body log r).1.failures ≡ log.failures)
landed_with_log body log (ok u) = (refl, refl, refl, refl)
landed_with_log body log (err e) = (refl, refl, refl, refl)

land_log :
    (put : Option (Fetched → Result (Unit {0}))) (f : Fetched) (log : Log)
    → ((land put f log).0 ≡ some (landing_answer put f))
      × ((land put f log).1.requests ≡ log.requests)
      × ((land put f log).1.slept ≡ log.slept)
      × ((land put f log).1.failures ≡ log.failures)
land_log none f log = (refl, refl, refl, refl)
land_log (some put) f log = landed_with_log f.body log (put f)

module _ (w : Wire) where
  closed_log :
      (e : Ended) (log : Log)
      → ((closed w (e, log)).1.requests ≡ log.requests) × ((closed w (e, log)).1.slept ≡ log.slept)
  closed_log (recovered f) log = let (a, q, s, l) = land_log w.landing f log in (q, s)
  closed_log (gave_up e) log = (refl, refl)
  closed_log out_of_fuel log = (refl, refl)

  closed-Decides :
      (k : ℕ) (a : Attempted) (e : Ended) (log : Log)
      → EndsLoop w k a (e, log)
      → Decides w k a (closed w (e, log))
  closed-Decides k (fetched f) e log (x, y) =
      let (a, q, s, l) = land_log w.landing f log in rw x (a, l ∙ y)
  closed-Decides k (failed f) e log (x, y, z) = rw x (refl, y, z)

between :
    (d requests longest : ℕ) {slept : ℕ}
    → requests ≡ suc d
    → slept ≤ d * longest
    → slept ≤ (requests - 1) * longest
between d requests longest e h = rw (let f : requests - 1 ≡ d = omega arith in f) h

module _ (w : Wire) (url : Text) (answer : ℕ → Answer) (live : w.replay ≡ none)
    (some_attempt : 1 ≤ w.retry.attempts) where
  runs : Runs w answer 1 quiet (fetch_loop w answer w.retry.attempts 1 quiet)
  runs = fetch_loop-Runs w answer w.retry.attempts 1 quiet (omega arith) some_attempt refl

  -- A fetch over the network makes one request at least and no more than the policy's attempts, and
  -- sleeps at most the longest delay between two of them.
  pub fetch_bytes-requests :
      (1 ≤ (fetch_bytes w url true answer).1.requests)
      × ((fetch_bytes w url true answer).1.requests ≤ w.retry.attempts)
      × ((fetch_bytes w url true answer).1.slept
          ≤ ((fetch_bytes w url true answer).1.requests - 1) * w.retry.max_delay)
  unfolding fetch_bytes
  fetch_bytes-requests =
      let (q, s) =
        closed_log w (fetch_loop w answer w.retry.attempts 1 quiet).0
          (fetch_loop w answer w.retry.attempts 1 quiet).1 in
      subst
        (λ r.
          (1 ≤ r.1.requests)
          × (r.1.requests ≤ w.retry.attempts)
          × (r.1.slept ≤ (r.1.requests - 1) * w.retry.max_delay))
        (sym (ap (over w url true answer) live))
        (
          omega (arith, q, runs.requests),
          omega (arith, q, runs.requests, runs.within),
          between runs.d (closed w (fetch_loop w answer w.retry.attempts 1 quiet)).1.requests
              w.retry.max_delay (omega (arith, q, runs.requests)) (omega (arith, s, runs.slept)),
        )

  -- A fetch over the network is decided by one of the policy's attempts, before which all failed with
  -- the connection, a 429, a 5xx or a body that stopped arriving.
  pub fetch_bytes-Decides :
      (k : ℕ) × (1 ≤ k)
      × (k ≤ w.retry.attempts)
      × ((m : ℕ) → 1 ≤ m → m < k → IsTransient (answer m))
      × Decides w k (attempt (answer k)) (fetch_bytes w url true answer)
  unfolding fetch_bytes
  fetch_bytes-Decides = (
    1 + runs.d,
    omega arith,
    runs.within,
    (λ m l k. attempt-IsTransient (answer m) (runs.retried m l k)),
    subst (Decides w (1 + runs.d) (attempt (answer (1 + runs.d))))
        (sym (ap (over w url true answer) live))
        (closed-Decides w (1 + runs.d) (attempt (answer (1 + runs.d)))
          (fetch_loop w answer w.retry.attempts 1 quiet).0
          (fetch_loop w answer w.retry.attempts 1 quiet).1 runs.ends),
  )
