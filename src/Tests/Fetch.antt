-- ===== src/Tests/Fetch.antt =====
-- The fetches of crates/pkdump-ingest/src/landing.rs at fixed inputs.
use pokedumpster.Base.{
  Text, codes, ℕ, ◌-◌, ◌*◌, ◌≤◌, ◌<◌, ◌≡◌, refl, Option, none, some, List, [], ◌∷◌, true, ◌==◌,
  if◌then◌else◌, arith,
}
use pokedumpster.Fetch.Retry.{policy_new, delay_after, from_env}
use pokedumpster.Fetch.Attempt.{Answer, refused, answered, attempt, Wire, ok}
use pokedumpster.Fetch.Loop.{fetch_bytes}
use pokedumpster.Fetch.Budget.{IsTransient, Decides, fetch_bytes-requests, fetch_bytes-Decides}

-- A refused connection, a 503, and a body.
abbrev weather : ℕ → Answer
weather n =
    if n == 1
    then refused (codes "connect")
    else if n == 2
    then answered 503 none (codes "503")
    else answered 200 (some (1 ∷ 2 ∷ [])) (codes "")

abbrev wire : Wire
wire = record { landing = some (λ response. ok tt); replay = none; retry = policy_new 4 500 }

delay_after-policy_new : delay_after (policy_new 6 500) 3 ≡ 2000
unfolding delay_after policy_new
delay_after-policy_new = refl

from_env-blank : from_env (λ name. some (codes " x ")) ≡ policy_new 4 500000000
unfolding from_env pokedumpster.Base.is_whitespace pokedumpster.Base.is_ascii_digit
from_env-blank = refl

fetch_bytes-wire : (fetch_bytes wire (codes "url") true weather).0 ≡ some (ok (1 ∷ 2 ∷ []))
unfolding fetch_bytes policy_new
fetch_bytes-wire = refl

fetch_bytes-requests_example :
    (1 ≤ (fetch_bytes wire (codes "url") true weather).1.requests)
    × ((fetch_bytes wire (codes "url") true weather).1.requests ≤ wire.retry.attempts)
    × ((fetch_bytes wire (codes "url") true weather).1.slept
        ≤ ((fetch_bytes wire (codes "url") true weather).1.requests - 1) * wire.retry.max_delay)
unfolding policy_new
fetch_bytes-requests_example = fetch_bytes-requests wire (codes "url") weather refl (omega arith)

fetch_bytes-Decides_example :
    (k : ℕ) × (1 ≤ k)
    × (k ≤ wire.retry.attempts)
    × ((m : ℕ) → 1 ≤ m → m < k → IsTransient (weather m))
    × Decides wire k (attempt (weather k)) (fetch_bytes wire (codes "url") true weather)
unfolding policy_new
fetch_bytes-Decides_example = fetch_bytes-Decides wire (codes "url") weather refl (omega arith)
