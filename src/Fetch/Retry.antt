-- ===== src/Fetch/Retry.antt =====
-- crates/pkdump-ingest/src/retry.rs: the budget of a fetch and its schedule. A `Duration` is a number
-- of nanoseconds.
use pokedumpster.Base.{
  Text, codes, trim, ℕ, ◌-◌, ◌*◌, ◌^◌, Option, none, some, Bool, ◌&&◌, ◌||◌, ltb, leb, ◌==◌,
  if◌then◌else◌, unwrap_or,
}
use pokedumpster.Base.Parse.{parse_u32}

abbrev pub from_millis : ℕ → ℕ
from_millis ms = ms * 1000000

-- `Duration::MAX`, a second short of 2^64 seconds and a nanosecond short of that second.
abbrev pub duration_max : ℕ
duration_max = 2 ^ 64 * 1000000000 - 1

abbrev pub default_attempts : ℕ
default_attempts = 4

abbrev pub default_base_delay : ℕ
default_base_delay = from_millis 500

abbrev pub default_max_delay : ℕ
default_max_delay = from_millis 8000

pub record RetryPolicy : Type 0 where
  pub attempts : ℕ
  pub base_delay : ℕ
  pub max_delay : ℕ

abbrev pub max : ℕ → ℕ → ℕ
max a b = if ltb a b then b else a

abbrev pub min : ℕ → ℕ → ℕ
min a b = if ltb b a then b else a

unfoldable pub policy_new : ℕ → ℕ → RetryPolicy
policy_new attempts base_delay = record {
  attempts = max attempts 1;
  base_delay = base_delay;
  max_delay = default_max_delay;
}

unfoldable pub policy_none : RetryPolicy
unfolding policy_new
policy_none = policy_new 1 0

-- `env_u32`, of a variable that may be unset.
abbrev pub env_u32 : Option Text → Option ℕ
env_u32 none = none
env_u32 (some v) = parse_u32 (trim v)

abbrev pub millis_or : Option ℕ → ℕ → ℕ
millis_or none d = d
millis_or (some ms) d = from_millis ms

-- `RetryPolicy::from_env`, of the environment.
unfoldable pub from_env : (Text → Option Text) → RetryPolicy
unfolding parse_u32 trim policy_new
from_env env =
    policy_new (unwrap_or (env_u32 (env (codes "PKDUMP_HTTP_RETRY_ATTEMPTS"))) default_attempts)
      (millis_or (env_u32 (env (codes "PKDUMP_HTTP_RETRY_BASE_MS"))) default_base_delay)

-- `attempt.saturating_sub(1).min(16)`, so that `1u32 << shift` is in range.
abbrev pub shift_of : ℕ → ℕ
shift_of attempt = min (attempt - 1) 16

unfoldable pub delay_after : RetryPolicy → ℕ → ℕ
delay_after p attempt = min (min (p.base_delay * 2 ^ shift_of attempt) duration_max) p.max_delay

unfoldable pub should_retry : RetryPolicy → ℕ → Bool
should_retry p attempt = ltb attempt p.attempts

unfoldable pub status_is_retryable : ℕ → Bool
status_is_retryable status = status == 429 || (leb 500 status && ltb status 600)
