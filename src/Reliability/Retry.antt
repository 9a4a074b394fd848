-- ===== src/Reliability/Retry.antt =====
-- How often `DoValue` of internal/platform/reliability/policy.go calls its function.
use aloqa_codex.Common.{
  ℕ, zero, suc, ◌+◌, ◌-◌, ◌≤◌, ◌<◌, ◌≡◌, ◌⊎◌, inl, inr, refl, subst, Bool, true, false, not, ◌||◌,
  none, some, Bool-cases, Option-cases, if◌then◌else◌, arith, leb,
}
use aloqa_codex.Common.Int.{ℤ, pos, negsuc, pos_part, leb_ℤ}
use aloqa_codex.Cerrors.{GoError, join, Result, ok, err, Result-cases}
use aloqa_codex.Reliability.Policy.{
  Policy, normalized, backoff_for_attempt, should_retry, World, do_attempts, do_value,
}

module _ {ℓ} {A : Type ℓ} (w : World A) (policy : Policy) where
  -- Attempt `n` failed with an error that may be tried again, and the sleep behind it was not
  -- interrupted.
  abbrev pub Retried : ℕ → Type ℓ
  Retried n =
      (e : GoError) × (w.attempt n ≡ err e)
      × (should_retry (w.facts e) ≡ true)
      × (w.is_done n ≡ false)
      × (w.sleep n (backoff_for_attempt policy n) ≡ none)

  -- Why the loop ends at attempt `n`, and with what.
  pub data Ended (last n : ℕ) : Result A → Type ℓ where
    succeeded : (a : A) → w.attempt n ≡ ok a → Ended last n (ok a)
    exhausted : (e : GoError) → w.attempt n ≡ err e → n ≡ last → Ended last n (err e)
    refused :
        (e : GoError)
        → w.attempt n ≡ err e
        → (should_retry (w.facts e) ≡ false) ⊎ (w.is_done n ≡ true)
        → Ended last n (err e)
    interrupted :
        (e s : GoError)
        → w.attempt n ≡ err e
        → w.sleep n (backoff_for_attempt policy n) ≡ some s
        → Ended last n (err (join e s))

  retried_reason : (b d : Bool) → not b || d ≡ false → (b ≡ true) × (d ≡ false)
  retried_reason true d h = (refl, h)
  retried_reason false d h = ground arith

  pub record IsRun (first last : ℕ) (r : Result A × ℕ) : Type ℓ where
    pub starts : first ≤ r.1
    pub bounded : r.1 ≤ last
    pub retried : (k : ℕ) → first ≤ k → k < r.1 → Retried k
    pub ended : Ended last r.1 r.0

  refused_reason : (b d : Bool) → not b || d ≡ true → (b ≡ false) ⊎ (d ≡ true)
  refused_reason true d h = inr h
  refused_reason false d h = inl refl

  IsRun-later :
      (first last : ℕ)
      → (r : Result A × ℕ) → Retried first
      → IsRun (suc first) last r
      → IsRun first last r
  IsRun-later first last r h run = record {
    starts = ground (arith, run.starts);
    bounded = run.bounded;
    retried = λ k lo hi. elim (Bool-cases (leb (suc first) k)) [
      | inl e ↦ run.retried k (ground (arith, e)) hi
      | inr e ↦ subst Retried (ground (arith, e, lo)) h
    ];
    ended = run.ended;
  }

  stop-IsRun :
      (first last : ℕ)
      → (r : Result A) → first ≤ last
      → Ended last first r
      → IsRun first last (r, first)
  stop-IsRun first last r h end = record {
    starts = ground arith;
    bounded = h;
    retried = λ k lo hi. ground arith;
    ended = end;
  }

  attempts-IsRun :
      (rounds first last : ℕ)
      → first + rounds ≡ last
      → IsRun first last (do_attempts w policy rounds first)
  unfolding do_attempts
  attempts-IsRun zero first last h = elim (Result-cases (w.attempt first)) [
    | inl (a, e) ↦
        rw (e, do_attempts) (stop-IsRun first last (ok a) (ground (arith, h)) (succeeded a e))
    | inr (x, e) ↦
        rw (e, do_attempts)
          (stop-IsRun first last (err x) (ground (arith, h)) (exhausted x e (ground (arith, h))))
  ]
  attempts-IsRun (suc rounds) first last h = elim (Result-cases (w.attempt first)) [
    | inl (a, e) ↦
        rw (e, do_attempts) (stop-IsRun first last (ok a) (ground (arith, h)) (succeeded a e))
    | inr (x, e) ↦ elim (Bool-cases (not (should_retry (w.facts x)) || w.is_done first)) [
      | inl b ↦
          rw (e, do_attempts, b)
            (stop-IsRun first last (err x) (ground (arith, h))
              (refused x e (refused_reason (should_retry (w.facts x)) (w.is_done first) b)))
      | inr b ↦ elim (Option-cases (w.sleep first (backoff_for_attempt policy first))) [
        | inl q ↦
            rw (e, do_attempts, b, q)
              (IsRun-later first last (do_attempts w policy rounds (suc first))
                (
                  x,
                  e,
                  (retried_reason (should_retry (w.facts x)) (w.is_done first) b).0,
                  (retried_reason (should_retry (w.facts x)) (w.is_done first) b).1,
                  q,
                )
                (attempts-IsRun rounds (suc first) last (ground (arith, h))))
        | inr (s, q) ↦
            rw (e, do_attempts, b, q)
              (stop-IsRun first last (err (join x s)) (ground (arith, h)) (interrupted x s e q))
      ]
    ]
  ]

at_least_one : (n : ℤ) → 1 ≤ pos_part (if leb_ℤ n (pos 0) then pos 1 else n)
at_least_one (pos n) = ground arith
at_least_one (negsuc n) = ground arith

normalized_attempts : (p : Policy) → 1 ≤ pos_part (normalized p).max_attempts
unfolding normalized
normalized_attempts p = at_least_one p.max_attempts

-- A call of `DoValue` makes at least one attempt and at most MaxAttempts of the normalized policy.
-- Every attempt before the last one failed with an error for which `ShouldRetry` is true, with the
-- context not done and the sleep of that attempt's delay not interrupted. The result is the value of
-- the last attempt, or its error, when it was attempt MaxAttempts or the error is not to be tried
-- again or the context is done, or its error joined with the one that interrupted the sleep.
pub do_value_sound {ℓ} :
    {A : Type ℓ} (w : World A) (p : Policy)
    → IsRun w (normalized p) 1 (pos_part (normalized p).max_attempts) (do_value w p)
unfolding do_value
do_value_sound w p =
    attempts-IsRun w (normalized p) (pos_part (normalized p).max_attempts - 1) 1
      (pos_part (normalized p).max_attempts) (ground (arith, normalized_attempts p))
