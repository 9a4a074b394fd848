-- ===== src/Reliability/Policy.antt =====
-- The policy, the retry loop and the supervisor's delays of internal/platform/reliability/policy.go.
use Prim.Native.String.{String}
use text.Mathlib.Text.{starts_with}
use aloqa_codex.Common.{
  ℕ, zero, suc, ◌+◌, ◌-◌, Bool, true, false, not, ◌||◌, List, [], ◌∷◌, Option, none, some,
  if◌then◌else◌, ltb,
}
use aloqa_codex.Common.Equality.{◌==◌, string_eq, contains}
use aloqa_codex.Common.Int.{ℤ, pos, leb_ℤ, pos_part}
use aloqa_codex.Cerrors.{GoError, join, Result, ok, err}
use aloqa_codex.Reliability.Duration.{double, seconds, milliseconds}

pub record Policy : Type 0 where
  pub timeout : ℤ
  pub max_attempts : ℤ
  pub retry_backoff : ℤ
  pub max_backoff : ℤ

abbrev positive_or : ℤ → ℤ → ℤ
positive_or d n = if leb_ℤ n (pos 0) then d else n

unfoldable pub normalized : Policy → Policy
normalized p = record {
  timeout = positive_or (seconds 5) p.timeout;
  max_attempts = positive_or (pos 1) p.max_attempts;
  retry_backoff = positive_or (milliseconds 200) p.retry_backoff;
  max_backoff = positive_or (seconds 5) p.max_backoff;
}

-- The loop of `backoffForAttempt`, by the rounds that are left.
unfoldable pub backoff_rounds : ℕ → ℤ → ℤ → ℤ
backoff_rounds zero max_backoff delay = delay
backoff_rounds (suc rounds) max_backoff delay =
    let doubled = double delay in
    let rest = backoff_rounds rounds max_backoff doubled in
    if leb_ℤ max_backoff doubled then max_backoff else rest

-- `backoffForAttempt`; attempts count from 1.
unfoldable pub backoff_for_attempt : Policy → ℕ → ℤ
unfolding backoff_rounds
backoff_for_attempt policy attempt =
    backoff_rounds (attempt - 1) policy.max_backoff policy.retry_backoff

-- What `ShouldRetry` reads off an error by the packages that define it, and the error's text in
-- lower case.
pub record Facts : Type 0 where
  pub is_redis_nil : Bool
  pub is_canceled : Bool
  pub is_deadline_exceeded : Bool
  pub net_timeout : Bool  -- a `net.Error` is in the chain and its `Timeout()` is true
  pub pg_code : Option String
  pub message : String

abbrev retry_codes : List String
retry_codes = "40001" ∷ "40P01" ∷ "55P03" ∷ "53300" ∷ "57P03" ∷ []

abbrev is_retry_code : Option String → Bool
is_retry_code none = false
is_retry_code (some c) = contains c retry_codes

-- `strings.Contains`
unfoldable pub has_text : String → String → Bool
has_text String.[] t = t == ""
has_text (String.◌∷◌ c s) t = starts_with (String.◌∷◌ c s) t || has_text s t

abbrev retry_texts : List String
retry_texts =
    "timeout" ∷ "connection reset" ∷ "broken pipe" ∷ "too many clients" ∷ "pool timeout"
    ∷ "readonly" ∷ "tryagain" ∷ "loading" ∷ []

unfoldable pub has_any_text : String → List String → Bool
unfolding has_text
has_any_text message [] = false
has_any_text message (t ∷ ts) = has_text message t || has_any_text message ts

-- `ShouldRetry` of an error that is not nil.
unfoldable pub should_retry : Facts → Bool
unfolding has_any_text
should_retry f =
    if f.is_redis_nil || f.is_canceled
    then false
    else if f.is_deadline_exceeded
    then true
    else if f.net_timeout
    then true
    else if is_retry_code f.pg_code
    then true
    else has_any_text f.message retry_texts

-- What a call of `DoValue` meets: the result of each attempt, the facts of an error, whether the
-- context is done after an attempt, and what the sleep behind it returns.
pub record World {ℓ} (A : Type ℓ) : Type ℓ where
  pub attempt : ℕ → Result A
  pub facts : GoError → Facts
  pub is_done : ℕ → Bool
  pub sleep : ℕ → ℤ → Option GoError

module _ {ℓ} {A : Type ℓ} where
  abbrev after_sleep : GoError → Option GoError → Result A × ℕ → ℕ → Result A × ℕ
  after_sleep e none rest n = rest
  after_sleep e (some s) rest n = (err (join e s), n)

  -- The loop from attempt `n` with `rounds` attempts behind it; the second part is the number of
  -- the last attempt that was made.
  unfoldable pub do_attempts : World A → Policy → ℕ → ℕ → Result A × ℕ
  unfolding should_retry
  do_attempts w policy zero n = elim (w.attempt n) [ ok a ↦ (ok a, n) | err e ↦ (err e, n) ]
  do_attempts w policy (suc rounds) n =
      let rest = do_attempts w policy rounds (suc n) in
      elim (w.attempt n) [
        | ok a ↦ (ok a, n)
        | err e ↦
            if not (should_retry (w.facts e)) || w.is_done n
            then (err e, n)
            else after_sleep e (w.sleep n (backoff_for_attempt policy n)) rest n
      ]

  -- `DoValue`
  unfoldable pub do_value : World A → Policy → Result A × ℕ
  unfolding do_attempts normalized
  do_value w p =
      let policy = normalized p in do_attempts w policy (pos_part policy.max_attempts - 1) 1

-- The delay of `Supervise` after a number of attempts, by the rounds of its loop.
unfoldable pub supervise_rounds : ℕ → ℕ → ℕ
supervise_rounds zero delay = delay
supervise_rounds (suc rounds) delay =
    let rest = supervise_rounds rounds (delay + delay) in
    if ltb delay 30_000_000_000 then rest else delay

unfoldable pub supervise_delay : ℕ → ℕ
unfolding supervise_rounds
supervise_delay attempt =
    let delay = supervise_rounds (attempt - 1) 1_000_000_000 in
    if ltb 30_000_000_000 delay then 30_000_000_000 else delay
