-- ===== src/Reliability/Examples.antt =====
-- The retries of internal/platform/reliability/policy.go on concrete data: a call that fails twice with
-- an error that may be tried again, and then succeeds.
use aloqa_codex.Common.{ℕ, ◌*◌, ◌^◌, true, false, none, ◌≡◌, refl, arith, ltb, if◌then◌else◌}
use Prim.Native.Nat.{min}
use aloqa_codex.Common.Int.{pos}
use aloqa_codex.Cerrors.{plain, ok, err}
use aloqa_codex.Reliability.Policy.{Policy, normalized, backoff_for_attempt, World, do_value}
use aloqa_codex.Reliability.Duration.{double}
use aloqa_codex.Reliability.Backoff.{backoff_for_attempt_lem}
use aloqa_codex.Reliability.Retry.{IsRun, do_value_sound}

abbrev policy : Policy
policy = record {
  timeout = pos 0;
  max_attempts = pos 4;
  retry_backoff = pos 200_000_000;
  max_backoff = pos 5_000_000_000;
}

abbrev world : World ℕ
world = record {
  attempt = λ n. if ltb n 3 then err (plain "i/o timeout") else ok 42;
  facts = λ e. record {
    is_redis_nil = false;
    is_canceled = false;
    is_deadline_exceeded = false;
    net_timeout = true;
    pg_code = none;
    message = "i/o timeout";
  };
  is_done = λ n. false;
  sleep = λ n delay. none;
}

third_succeeds : do_value world policy ≡ (ok 42, 3)
unfolding do_value
third_succeeds = refl

do_value_sound_example : IsRun world (normalized policy) 1 4 (do_value world policy)
unfolding normalized
do_value_sound_example = do_value_sound world policy

sixth_delay : backoff_for_attempt policy 6 ≡ pos 5_000_000_000
unfolding backoff_for_attempt double
sixth_delay = refl

backoff_for_attempt_lem_example :
    (backoff_for_attempt policy 1 ≡ pos 200_000_000)
    × (backoff_for_attempt policy 6 ≡ pos (min 5_000_000_000 (200_000_000 * 2 ^ 5)))
backoff_for_attempt_lem_example =
    backoff_for_attempt_lem policy 200_000_000 5_000_000_000 4 refl refl (omega arith) (omega arith)
