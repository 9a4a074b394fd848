-- ===== src/Pagination/Base64.antt =====
-- `base64.URLEncoding` of Go's standard library, which internal/pkg/pagination/pagination.go uses. A text is the
-- list of its bytes.
use aloqa_codex.Common.{
  ℕ, ◌+◌, ◌-◌, ◌*◌, ◌/◌, ◌%◌, ◌<◌, Bool, false, ◌&&◌, ◌||◌, List, [], ◌∷◌, Option, none, some, ◌≡◌,
  refl, ap, arith, if◌then◌else◌, nat_eqb, ltb, leb,
}
use aloqa_codex.Cerrors.{GoError, plain, Result, ok, err, ◌>>=◌}

-- The byte that stands for a number below 64.
unfoldable pub letter : ℕ → ℕ
letter i =
    if ltb i 26
    then 65 + i
    else if ltb i 52
    then 71 + i
    else if ltb i 62
    then i - 4
    else if nat_eqb i 62
    then 45
    else 95

unfoldable pub digit : ℕ → Option ℕ
digit c =
    if leb 65 c && leb c 90
    then some (c - 65)
    else if leb 97 c && leb c 122
    then some (c - 71)
    else if leb 48 c && leb c 57
    then some (c + 4)
    else if nat_eqb c 45
    then some 62
    else if nat_eqb c 95
    then some 63
    else none

abbrev pub padding : ℕ
padding = 61

-- `EncodeToString`
unfoldable pub encode : List ℕ → List ℕ
encode [] = []
encode (a ∷ []) = letter (a / 4) ∷ letter (a % 4 * 16) ∷ padding ∷ padding ∷ []
encode (a ∷ b ∷ []) =
    letter (a / 4) ∷ letter (a % 4 * 16 + b / 16) ∷ letter (b % 16 * 4) ∷ padding ∷ []
encode (a ∷ b ∷ c ∷ rest) =
    letter (a / 4)
    ∷ letter (a % 4 * 16 + b / 16)
    ∷ letter (b % 16 * 4 + c / 64)
    ∷ letter (c % 64)
    ∷ encode rest

-- The offset that `CorruptInputError` names is left out.
abbrev corrupt : GoError
corrupt = plain "illegal base64 data"

abbrev or_corrupt : Option ℕ → Result ℕ
or_corrupt none = err corrupt
or_corrupt (some x) = ok x

unfoldable pub digit_or_error : ℕ → Result ℕ
digit_or_error c = or_corrupt (digit c)

abbrev third_digit : ℕ → ℕ → ℕ → Result (List ℕ)
third_digit first y c =
    if nat_eqb c padding
    then ok (first ∷ [])
    else (digit_or_error c >>= λ z. ok (first ∷ (y % 16 * 16 + z / 4) ∷ []))

-- The last group, with its padding. What the last digit has beyond the bytes is not looked at.
unfoldable pub last_group : ℕ → ℕ → ℕ → Result (List ℕ)
last_group a b c = do x ← digit_or_error a; y ← digit_or_error b; third_digit (x * 4 + y / 16) y c

unfoldable pub full_group : ℕ → ℕ → ℕ → ℕ → List ℕ → Result (List ℕ)
full_group a b c d rest = do
  x ← digit_or_error a
  y ← digit_or_error b
  z ← digit_or_error c
  w ← digit_or_error d
  ok ((x * 4 + y / 16) ∷ (y % 16 * 16 + z / 4) ∷ (z % 4 * 64 + w) ∷ rest)

abbrev is_newline : ℕ → Bool
is_newline c = nat_eqb c 10 || nat_eqb c 13

-- The decoder passes over carriage returns and newlines.
unfoldable pub without_newlines : List ℕ → List ℕ
without_newlines [] = []
without_newlines (c ∷ cs) =
    let rest = without_newlines cs in if is_newline c then rest else c ∷ rest

abbrev ends_here : List ℕ → Result (List ℕ) → Result (List ℕ)
ends_here [] result = result
ends_here (_ ∷ _) result = err corrupt

unfoldable pub decode_groups : List ℕ → Result (List ℕ)
decode_groups [] = ok []
decode_groups (a ∷ b ∷ c ∷ d ∷ cs) =
    let rest = decode_groups cs in
    if nat_eqb d padding
    then ends_here cs (last_group a b c)
    else (rest >>= λ bytes. full_group a b c d bytes)
decode_groups _ = err corrupt

-- `DecodeString`
unfoldable pub decode : List ℕ → Result (List ℕ)
decode cs = decode_groups (without_newlines cs)

-- ---- a text that was encoded comes back

abbrev pub AreBytes : List ℕ → Type 0
AreBytes [] = Unit {0}
AreBytes (b ∷ bs) = (b < 256) × AreBytes bs

digit-letter : (i : ℕ) → i < 64 → digit (letter i) ≡ some i
unfolding digit letter
digit-letter i h = ground arith

letter_plain :
    (i : ℕ) → i < 64 → (nat_eqb (letter i) padding ≡ false) × (is_newline (letter i) ≡ false)
unfolding letter
letter_plain i h = (ground arith, ground arith)

digit_or_error-letter : (i : ℕ) → i < 64 → digit_or_error (letter i) ≡ ok i
unfolding digit_or_error
digit_or_error-letter i h = ap or_corrupt (digit-letter i h)

without_newlines-letter :
    (i : ℕ) (cs : List ℕ)
    → i < 64
    → without_newlines (letter i ∷ cs) ≡ letter i ∷ without_newlines cs
unfolding without_newlines
without_newlines-letter i cs h = rw ((letter_plain i h).1) refl

without_newlines-encode : (bs : List ℕ) → AreBytes bs → without_newlines (encode bs) ≡ encode bs
unfolding encode without_newlines
without_newlines-encode [] h = refl
without_newlines-encode (a ∷ []) (ha, _) =
    rw
      (
        without_newlines-letter (a / 4) _ (omega arith),
        without_newlines-letter (a % 4 * 16) _ (omega arith),
      )
      refl
without_newlines-encode (a ∷ b ∷ []) (ha, (hb, _)) =
    rw
      (
        without_newlines-letter (a / 4) _ (omega arith),
        without_newlines-letter (a % 4 * 16 + b / 16) _ (omega arith),
        without_newlines-letter (b % 16 * 4) _ (omega arith),
      )
      refl
without_newlines-encode (a ∷ b ∷ c ∷ rest) (ha, (hb, (hc, h))) =
    rw
      (
        without_newlines-letter (a / 4) _ (omega arith),
        without_newlines-letter (a % 4 * 16 + b / 16) _ (omega arith),
        without_newlines-letter (b % 16 * 4 + c / 64) _ (omega arith),
        without_newlines-letter (c % 64) _ (omega arith),
        without_newlines-encode rest h,
      )
      refl

first_byte : (a b : ℕ) → a < 256 → b < 256 → a / 4 * 4 + (a % 4 * 16 + b / 16) / 16 ≡ a
first_byte a b ha hb = omega arith

second_byte :
    (a b c : ℕ)
    → b < 256
    → c < 256
    → (a % 4 * 16 + b / 16) % 16 * 16 + (b % 16 * 4 + c / 64) / 4 ≡ b
second_byte a b c hb hc = omega arith

third_byte : (b c : ℕ) → c < 256 → (b % 16 * 4 + c / 64) % 4 * 64 + c % 64 ≡ c
third_byte b c hc = omega arith

three_bytes :
    (a b c : ℕ) (rest : List ℕ)
    → a < 256
    → b < 256
    → c < 256
    → full_group
        (letter (a / 4))
        (letter (a % 4 * 16 + b / 16))
        (letter (b % 16 * 4 + c / 64))
        (letter (c % 64))
        rest
      ≡ ok (a ∷ b ∷ c ∷ rest)
unfolding full_group
three_bytes a b c rest ha hb hc =
    rw
      (
        digit_or_error-letter (a / 4) (omega arith),
        digit_or_error-letter (a % 4 * 16 + b / 16) (omega arith),
        digit_or_error-letter (b % 16 * 4 + c / 64) (omega arith),
        digit_or_error-letter (c % 64) (omega arith),
      )
      (rw (first_byte a b ha hb, second_byte a b c hb hc, third_byte b c hc) refl)

one_byte :
    (a : ℕ) → a < 256 → last_group (letter (a / 4)) (letter (a % 4 * 16)) padding ≡ ok (a ∷ [])
unfolding last_group
one_byte a ha =
    let whole : a / 4 * 4 + a % 4 * 16 / 16 ≡ a = omega arith in
    rw
      (
        digit_or_error-letter (a / 4) (omega arith),
        digit_or_error-letter (a % 4 * 16) (omega arith),
      )
      (rw whole refl)

two_bytes :
    (a b : ℕ)
    → a < 256
    → b < 256
    → last_group (letter (a / 4)) (letter (a % 4 * 16 + b / 16)) (letter (b % 16 * 4))
      ≡ ok (a ∷ b ∷ [])
unfolding last_group
two_bytes a b ha hb =
    let second : (a % 4 * 16 + b / 16) % 16 * 16 + b % 16 * 4 / 4 ≡ b = omega arith in
    rw
      (
        digit_or_error-letter (a / 4) (omega arith),
        digit_or_error-letter (a % 4 * 16 + b / 16) (omega arith),
        (letter_plain (b % 16 * 4) (omega arith)).0,
        digit_or_error-letter (b % 16 * 4) (omega arith),
      )
      (rw (first_byte a b ha hb, second) refl)

decode_groups-encode : (bs : List ℕ) → AreBytes bs → decode_groups (encode bs) ≡ ok bs
unfolding encode decode_groups
decode_groups-encode [] h = refl
decode_groups-encode (a ∷ []) (ha, _) = one_byte a ha
decode_groups-encode (a ∷ b ∷ []) (ha, (hb, _)) = two_bytes a b ha hb
decode_groups-encode (a ∷ b ∷ c ∷ rest) (ha, (hb, (hc, h))) =
    rw ((letter_plain (c % 64) (omega arith)).0, decode_groups-encode rest h)
      (three_bytes a b c rest ha hb hc)

pub decode-encode : (bs : List ℕ) → AreBytes bs → decode (encode bs) ≡ ok bs
unfolding decode
decode-encode bs h = rw (without_newlines-encode bs h) (decode_groups-encode bs h)
