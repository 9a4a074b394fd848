-- ===== src/Pagination.antt =====
-- internal/pkg/pagination/pagination.go: the parameters of a page and their normalisation.
pub mod Base64
pub mod Cursor
pub mod Examples
use aloqa_codex.Common.{ℕ, ◌≡◌, if◌then◌else◌, arith}
use aloqa_codex.Common.Int.{ℤ, pos, ◌≤ℤ◌, leb_ℤ, ltb_ℤ}

abbrev pub default_limit : ℤ
default_limit = pos 50

abbrev pub max_limit : ℤ
max_limit = pos 100

pub record Params : Type 0 where
  pub cursor : ℕ  -- a UUID; `uuid.Nil` is 0
  pub limit : ℤ
  pub offset : ℤ

unfoldable pub normalize : Params → Params
normalize p =
    let q = if leb_ℤ p.limit (pos 0) then record p { limit = default_limit } else p in
    if ltb_ℤ max_limit q.limit then record q { limit = max_limit } else q

-- Whatever a client asks for, a page has between 1 and 100 items, to normalise again changes nothing,
-- and the cursor and the offset stay.
pub normalize_bounds :
    (p : Params)
    → (pos 1 ≤ℤ (normalize p).limit)
      × ((normalize p).limit ≤ℤ max_limit)
      × (normalize (normalize p) ≡ normalize p)
      × ((normalize p).cursor ≡ p.cursor)
      × ((normalize p).offset ≡ p.offset)
unfolding normalize
normalize_bounds p = (ground arith, ground arith, ground arith, ground arith, ground arith)
