-- ===== src/Pagination/Cursor.antt =====
-- `EncodeCursor` and `DecodeCursor` of internal/pkg/pagination/pagination.go. A UUID is the number of its 16 bytes,
-- first byte first, and `uuid.FromBytes`, which belongs to another package, is a parameter.
use aloqa_codex.Common.{
  ℕ, zero, suc, ◌/◌, ◌%◌, List, [], ◌∷◌, ◌≡◌, refl, arith, if◌then◌else◌, nat_eqb, nat_eqb_iff,
  Bool-cases, inl, inr, ◌∙◌,
}
use aloqa_codex.Cerrors.{Result, ok, ◌>>=◌}
use aloqa_codex.Pagination.Base64.{
  encode, decode, decode_groups, without_newlines, AreBytes, decode-encode,
}

-- The last `n` bytes of a number, in front of others.
unfoldable pub bytes_before : ℕ → ℕ → List ℕ → List ℕ
bytes_before zero id bs = bs
bytes_before (suc n) id bs = bytes_before n (id / 256) (id % 256 ∷ bs)

-- `id[:]`
abbrev pub uuid_bytes : ℕ → List ℕ
uuid_bytes id = bytes_before 16 id []

unfoldable pub encode_cursor : ℕ → List ℕ
encode_cursor id = if nat_eqb id 0 then [] else encode (uuid_bytes id)

abbrev decode_given : (List ℕ → Result ℕ) → List ℕ → Result ℕ
decode_given from_bytes [] = ok 0
decode_given from_bytes (c ∷ cs) = decode (c ∷ cs) >>= λ bs. from_bytes bs

unfoldable pub decode_cursor : (List ℕ → Result ℕ) → List ℕ → Result ℕ
decode_cursor from_bytes cursor = decode_given from_bytes cursor

bytes_before-AreBytes : (n id : ℕ) (bs : List ℕ) → AreBytes bs → AreBytes (bytes_before n id bs)
unfolding bytes_before
bytes_before-AreBytes zero id bs h = h
bytes_before-AreBytes (suc n) id bs h =
    bytes_before-AreBytes n (id / 256) (id % 256 ∷ bs) (omega arith, h)

-- A text that is not empty is decoded.
decode_some :
    (from_bytes : List ℕ → Result ℕ) (id : ℕ) (cs : List ℕ)
    → decode cs ≡ ok (uuid_bytes id)
    → decode_given from_bytes cs ≡ from_bytes (uuid_bytes id)
unfolding decode decode_groups without_newlines bytes_before
decode_some from_bytes id [] h = absurd (cc)
decode_some from_bytes id (c ∷ cs) h = rw h refl

-- The cursor of an id, encoded and decoded, is the id, also for the nil UUID, whose cursor is empty, provided that
-- `uuid.FromBytes` gives the UUID of 16 bytes.
pub decode_cursor-encode_cursor :
    (from_bytes : List ℕ → Result ℕ) (id : ℕ)
    → from_bytes (uuid_bytes id) ≡ ok id
    → decode_cursor from_bytes (encode_cursor id) ≡ ok id
unfolding decode_cursor encode_cursor
decode_cursor-encode_cursor from_bytes id back = elim (Bool-cases (nat_eqb id 0)) [
  | inl nil ↦ let none_left : id ≡ 0 = (nat_eqb_iff id 0).0 nil in rw (nil, none_left) refl
  | inr given ↦ rw given (
      decode_some from_bytes id (encode (uuid_bytes id))
        (decode-encode (uuid_bytes id) (bytes_before-AreBytes 16 id [] tt))
      ∙ back)
]
