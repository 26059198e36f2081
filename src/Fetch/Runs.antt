-- ===== src/Fetch/Runs.antt =====
-- crates/pkdump-ingest/src/retry.rs and landing.rs: the loop keeps to its budget, and ends
-- with its last attempt.
use pokedumpster.Base.{
  Text, ℕ, zero, suc, ◌+◌, ◌*◌, ◌≤◌, ◌<◌, ◌≡◌, refl, ◌⊎◌, inl, inr, Option, none, some, List, [],
  ◌∷◌, Bool, true, false, ◌&&◌, Bool-cases, arith, subst, ltb,
}
use pokedumpster.Fetch.Retry.{RetryPolicy, should_retry, delay_after}
use pokedumpster.Fetch.Attempt.{
  Answer, Fetched, Failed, Attempted, fetched, failed, attempt, http, Result, Wire,
}
use pokedumpster.Fetch.Loop.{Log, Ended, recovered, gave_up, asked, note, after, fetch_loop}

pub delay_after-le : (p : RetryPolicy) (n : ℕ) → delay_after p n ≤ p.max_delay
unfolding delay_after
delay_after-le p n = ground arith

suc_times : (d m : ℕ) → suc d * m ≡ d * m + m
suc_times d m = grind arith

-- What the manifest gets of a failure.
abbrev pub recorded : Option (Fetched → Result (Unit {0})) → Failed → List (Option ℕ × Text)
recorded none f = []
recorded (some put) f = (f.status, f.text) ∷ []

-- An attempt that failed in a way that may be asked again.
abbrev pub IsRetryable : Attempted → Type 0
IsRetryable (fetched f) = ⊥
IsRetryable (failed f) = f.retryable ≡ true

-- How attempt `k` ends the loop.
abbrev pub EndsLoop : Wire → ℕ → Attempted → Ended × Log → Type 0
EndsLoop w k (fetched f) r = (r.0 ≡ recovered f) × (r.1.failures ≡ [])
EndsLoop w k (failed f) r =
    (r.0 ≡ gave_up (http f.text))
    × (r.1.failures ≡ recorded w.landing f)
    × ((f.retryable ≡ false) ⊎ (w.retry.attempts ≤ k))

-- From attempt `n` on, `d` attempts were asked again and the next one ended the loop.
pub record Runs (w : Wire) (answer : ℕ → Answer) (n : ℕ) (log : Log) (r : Ended × Log)
    : Type 0 where
  pub d : ℕ
  pub within : n + d ≤ w.retry.attempts
  pub retried : (m : ℕ) → n ≤ m → m < n + d → IsRetryable (attempt (answer m))
  pub requests : r.1.requests ≡ log.requests + suc d
  pub slept : r.1.slept ≤ log.slept + d * w.retry.max_delay
  pub ends : EndsLoop w (n + d) (attempt (answer (n + d))) r

module _ (w : Wire) (answer : ℕ → Answer) where
  noted :
      (put : Option (Fetched → Result (Unit {0}))) (f : Failed) (log : Log)
      → log.failures ≡ []
      → ((note put f log).failures ≡ recorded put f)
        × ((note put f log).requests ≡ log.requests)
        × ((note put f log).slept ≡ log.slept)
  noted none f log h = (h, refl, refl)
  noted (some put) f log h = (rw h refl, refl, refl)

  -- An attempt that ends the loop.
  last :
      (n : ℕ) (log : Log) (r : Ended × Log)
      → n ≤ w.retry.attempts
      → r.1.requests ≡ suc log.requests
      → r.1.slept ≡ log.slept
      → EndsLoop w n (attempt (answer n)) r
      → Runs w answer n log r
  last n log r h q s e = record {
    d = 0;
    within = omega arith;
    retried = λ m l k. absurd (omega arith);
    requests = omega arith;
    slept = omega arith;
    ends = subst (λ k. EndsLoop w k (attempt (answer k)) r) (plus_zero n) e;
  }
    where
      plus_zero : (n : ℕ) → n ≡ n + 0
      plus_zero n = omega arith

  -- An attempt that was asked again.
  again :
      (n : ℕ) (log : Log) (r : Ended × Log)
      → IsRetryable (attempt (answer n))
      → Runs w answer
          (n + 1)
          (record log { requests = suc log.requests; slept = log.slept + delay_after w.retry n })
          r
      → Runs w answer n log r
  again n log r h runs = record {
    d = suc runs.d;
    within = omega (arith, runs.within);
    retried = λ m l k. elim (Bool-cases (ltb n m)) [
      | inl p ↦ runs.retried m (ground arith) (omega arith)
      | inr p ↦ subst (λ i. IsRetryable (attempt (answer i))) (let e : n ≡ m = ground arith in e) h
    ];
    requests = omega (arith, runs.requests);
    slept = omega (arith, delay_after-le w.retry n, suc_times runs.d w.retry.max_delay);
    ends = subst (λ k. EndsLoop w k (attempt (answer k)) r) (plus_suc n runs.d) runs.ends;
  }
    where
      plus_suc : (n d : ℕ) → n + 1 + d ≡ n + suc d
      plus_suc n d = omega arith

  spent :
      (retryable : Bool) (n : ℕ)
      → (retryable && should_retry w.retry n) ≡ false
      → (retryable ≡ false) ⊎ (w.retry.attempts ≤ n)
  unfolding should_retry
  spent true n h = inr (ground arith)
  spent false n h = inl refl

  after-Runs :
      (n : ℕ) (log : Log) (a : Attempted) (next : Log → Ended × Log)
      → log.failures ≡ []
      → n ≤ w.retry.attempts
      → attempt (answer n) ≡ a
      → ((log' : Log)
          → log'.failures ≡ []
          → n + 1 ≤ w.retry.attempts
          → Runs w answer (n + 1) log' (next log'))
      → Runs w answer n log (after w n (asked log) a next)
  unfolding should_retry
  after-Runs n log (fetched f) next q h e ih =
      last n log (recovered f, asked log) h refl refl (rw e (refl, q))
  after-Runs n log (failed f) next q h e ih =
      let (nf, nr, ns) = noted w.landing f (asked log) q in
      elim (Bool-cases (f.retryable && should_retry w.retry n)) [
        | inl more ↦ rw more (again n log _ (rw e (ground arith)) (ih _ q (ground arith)))
        | inr done ↦ rw done (
            last n log (gave_up (http f.text), note w.landing f (asked log)) h nr ns
              (rw e (refl, nf, spent (f.retryable) n done)))
      ]

  -- The loop, with a unit of fuel for each attempt that is left.
  pub fetch_loop-Runs :
      (fuel n : ℕ) (log : Log)
      → fuel + n ≡ suc w.retry.attempts
      → n ≤ w.retry.attempts
      → log.failures ≡ []
      → Runs w answer n log (fetch_loop w answer fuel n log)
  unfolding fetch_loop
  fetch_loop-Runs zero n log h l q = absurd (omega arith)
  fetch_loop-Runs (suc fuel) n log h l q =
      after-Runs n log (attempt (answer n)) (λ log'. fetch_loop w answer fuel (n + 1) log') q l refl
        (λ log' q' l'. fetch_loop-Runs fuel (n + 1) log' (omega arith) l' q')
