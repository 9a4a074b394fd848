-- ===== src/Reliability/Backoff.antt =====
-- How long internal/platform/reliability/policy.go waits between two attempts.
use Prim.Native.Nat.{min}
use native.Mathlib.Nat.{pow-suc}
use aloqa_codex.Common.{
  ℕ, zero, suc, ◌+◌, ◌-◌, ◌*◌, ◌^◌, ◌≤◌, ◌<◌, ◌≡◌, ap, inl, inr, Bool-cases, leb, arith,
}
use aloqa_codex.Common.Int.{pos}
use aloqa_codex.Reliability.Duration.{double_exact}
use aloqa_codex.Reliability.Policy.{
  Policy, backoff_rounds, backoff_for_attempt, supervise_rounds, supervise_delay,
}

suc-pred : (n : ℕ) → suc n - 1 ≡ n
suc-pred n = ground arith

pow_step : (d r : ℕ) → d * 2 ^ suc r ≡ d * 2 * 2 ^ r
pow_step d r = rw (pow-suc 2 r) (ground arith)

pow_grows : (d r : ℕ) → d ≤ d * 2 ^ r
pow_grows d zero = ground arith
pow_grows d (suc r) = ground (arith, pow_step d r, pow_grows (d * 2) r)

backoff_rounds_lem :
    (rounds limit d : ℕ)
    → d < 2 ^ 62
    → limit ≤ 2 ^ 62
    → backoff_rounds (suc rounds) (pos limit) (pos d) ≡ pos (min limit (d * 2 ^ suc rounds))
unfolding backoff_rounds
backoff_rounds_lem zero limit d h k = rw (double_exact d h) (ground arith)
backoff_rounds_lem (suc rounds) limit d h k = elim (Bool-cases (leb limit (d * 2))) [
  | inl e ↦
      rw (double_exact d h)
        (ground (arith, e, pow_step d (suc rounds), pow_grows (d * 2) (suc rounds)))
  | inr e ↦ rw (double_exact d h) (
      ground (
        arith,
        e,
        pow_step d (suc rounds),
        backoff_rounds_lem rounds limit (d * 2) (ground (arith, e, k)) k,
      ))
]

-- With a RetryBackoff of `retry` below 2^62 ns and a MaxBackoff of `limit` of at most 2^62 ns, the
-- delay behind attempt 1 is `retry` itself, and the delay behind attempt n + 2 is the smaller of
-- `limit` and `retry` times 2^(n + 1): the doubling in int64 does not wrap around, whatever the attempt.
pub backoff_for_attempt_lem :
    (policy : Policy)
    → (retry limit n : ℕ) → policy.retry_backoff ≡ pos retry
    → policy.max_backoff ≡ pos limit
    → retry < 2 ^ 62
    → limit ≤ 2 ^ 62
    → (backoff_for_attempt policy 1 ≡ pos retry)
      × (backoff_for_attempt policy (suc (suc n)) ≡ pos (min limit (retry * 2 ^ suc n)))
unfolding backoff_for_attempt
backoff_for_attempt_lem policy retry limit n er el h k =
    (er, rw (er, el, suc-pred (suc n)) (backoff_rounds_lem n limit retry h k))

same : (delay r : ℕ) → (delay + delay) * 2 ^ r ≡ delay * 2 * 2 ^ r
same delay r = ap (λ x. x * 2 ^ r) (ground arith)

supervise_rounds_lem :
    (rounds delay : ℕ)
    → min 30_000_000_000 (supervise_rounds rounds delay) ≡ min 30_000_000_000 (delay * 2 ^ rounds)
unfolding supervise_rounds
supervise_rounds_lem zero delay = ground arith
supervise_rounds_lem (suc rounds) delay = ground (
  arith,
  pow_step delay rounds,
  pow_grows (delay * 2) rounds,
  supervise_rounds_lem rounds (delay + delay),
  same delay rounds,
)

-- `Supervise` starts a worker again after 1 s, then after twice the delay before, and never after
-- more than 30 s: the delay before restart n + 1 is the smaller of 30 s and 2^n s.
pub supervise_delay_lem :
    (n : ℕ) → supervise_delay (suc n) ≡ min 30_000_000_000 (1_000_000_000 * 2 ^ n)
unfolding supervise_delay
supervise_delay_lem n = rw (suc-pred n) (ground (arith, supervise_rounds_lem n 1_000_000_000))
