-- ===== src/Reliability/Duration.antt =====
-- The int64 of Go's `time.Duration`: a signed integer, and doubling with its wrap-around.
use aloqa_codex.Common.{ℕ, suc, ◌-◌, ◌*◌, ◌%◌, ◌^◌, ◌<◌, ◌≡◌, if◌then◌else◌, ltb, arith}
use aloqa_codex.Common.Int.{ℤ, pos, negsuc}

-- The number that 64 bits stand for.
abbrev of_bits : ℕ → ℤ
of_bits b = if ltb b (2 ^ 63) then pos b else negsuc (2 ^ 64 - 1 - b)

-- `delay *= 2`
unfoldable pub double : ℤ → ℤ
double (pos n) = of_bits ((n * 2) % 2 ^ 64)
double (negsuc n) = of_bits ((2 ^ 64 - (suc n * 2) % 2 ^ 64) % 2 ^ 64)

pub double_exact : (n : ℕ) → n < 2 ^ 62 → double (pos n) ≡ pos (n * 2)
unfolding double
double_exact n h = ground arith

abbrev pub seconds : ℕ → ℤ
seconds n = pos (n * 1_000_000_000)

abbrev pub milliseconds : ℕ → ℤ
milliseconds n = pos (n * 1_000_000)
