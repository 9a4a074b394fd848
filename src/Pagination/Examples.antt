-- ===== src/Pagination/Examples.antt =====
-- Cursors of concrete UUIDs.
use aloqa_codex.Common.{ℕ, ◌+◌, ◌*◌, ◌^◌, List, [], ◌∷◌, ◌≡◌, refl, if◌then◌else◌, nat_eqb, length}
use aloqa_codex.Cerrors.{plain, Result, ok, err}
use aloqa_codex.Pagination.Base64.{encode, letter, decode, decode_groups, without_newlines}
use aloqa_codex.Pagination.Cursor.{
  bytes_before, encode_cursor, decode_cursor, decode_cursor-encode_cursor,
}

abbrev number_of : ℕ → List ℕ → ℕ
number_of high [] = high
number_of high (b ∷ bs) = number_of (high * 256 + b) bs

-- `uuid.FromBytes`
abbrev from_bytes : List ℕ → Result ℕ
from_bytes bs =
    if nat_eqb (length bs) 16 then ok (number_of 0 bs) else err (plain "invalid UUID length")

abbrev some_id : ℕ
some_id = 2 ^ 127 + 98765432123456789

some_id_back : from_bytes (bytes_before 16 some_id []) ≡ ok some_id
unfolding bytes_before
some_id_back = refl

decode_cursor-encode_cursor_example : decode_cursor from_bytes (encode_cursor some_id) ≡ ok some_id
decode_cursor-encode_cursor_example = decode_cursor-encode_cursor from_bytes some_id some_id_back

-- The cursor of the id 1 ends in "AQ==".
first_cursor : encode_cursor 1 ≡ (
    65 ∷ 65 ∷ 65 ∷ 65 ∷ 65 ∷ 65 ∷ 65 ∷ 65 ∷ 65 ∷ 65 ∷ 65 ∷ 65 ∷ 65 ∷ 65 ∷ 65 ∷ 65 ∷ 65 ∷ 65 ∷ 65
    ∷ 65 ∷ 65 ∷ 81 ∷ 61 ∷ 61 ∷ [])
unfolding encode_cursor bytes_before encode letter
first_cursor = refl

-- A single letter is no cursor.
short_cursor : decode_cursor from_bytes (65 ∷ []) ≡ err (plain "illegal base64 data")
unfolding decode_cursor decode decode_groups without_newlines
short_cursor = refl
