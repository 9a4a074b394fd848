-- ===== src/Common/Text.antt =====
-- The parts of Go's `strings` and `sort` that the program calls on texts.
use Prim.Native.Nat.{ℕ}
use Prim.Native.Char.{Char, code}
use Prim.Native.String.{String, compare}
use Prim.Native.String.compare
use mathlib.Core.Path.{◌≡◌, refl}
use mathlib.Core.Bool.{Bool, true, false, ◌&&◌, ◌||◌}
use mathlib.Core.List.{List, [], ◌∷◌}
use native.Mathlib.Omega.{arith}
use text.Mathlib.Text.{is_le, ◌==◌}
use text.Mathlib.TextEquality.{eq_iff}
use aloqa_codex.Common.Tests.{leb, nat_eqb, if◌then◌else◌}
use aloqa_codex.Common.Equality.{contains, Distinct, string_eq}

-- `unicode.IsSpace`
unfoldable pub is_space : ℕ → Bool
is_space c =
    (leb 9 c && leb c 13)
    || nat_eqb c 32
    || nat_eqb c 0x85
    || nat_eqb c 0xa0
    || nat_eqb c 0x1680
    || (leb 0x2000 c && leb c 0x200a)
    || nat_eqb c 0x2028
    || nat_eqb c 0x2029
    || nat_eqb c 0x202f
    || nat_eqb c 0x205f
    || nat_eqb c 0x3000

unfoldable pub trim_left : String → String
trim_left String.[] = String.[]
trim_left (String.◌∷◌ c s) = if is_space (code c) then trim_left s else String.◌∷◌ c s

abbrev cons_trimmed : Char → String → String
cons_trimmed c String.[] = if is_space (code c) then String.[] else String.◌∷◌ c String.[]
cons_trimmed c (String.◌∷◌ d s) = String.◌∷◌ c (String.◌∷◌ d s)

unfoldable pub trim_right : String → String
trim_right String.[] = String.[]
trim_right (String.◌∷◌ c s) = cons_trimmed c (trim_right s)

-- `strings.TrimSpace`
unfoldable pub trim_space : String → String
unfolding trim_left trim_right is_space
trim_space s = trim_left (trim_right s)

-- `s <= t`: by the characters' numbers, which is the order of the bytes.
abbrev pub string_leb : String → String → Bool
string_leb s t = is_le (compare s t)

pub string_leb_total : (s t : String) → string_leb s t ≡ false → string_leb t s ≡ true
string_leb_total String.[] String.[] h = refl
string_leb_total String.[] (String.◌∷◌ d t) h = ground (arith, compare.nil-cons d t)
string_leb_total (String.◌∷◌ c s) String.[] h = rw (compare.nil-cons c s) refl
string_leb_total (String.◌∷◌ c s) (String.◌∷◌ d t) h =
    ground (arith, compare.cons-cons c d s t, compare.cons-cons d c t s, string_leb_total s t)

unfoldable pub insert_sorted : String → List String → List String
insert_sorted x [] = x ∷ []
insert_sorted x (y ∷ ys) = if string_leb x y then x ∷ y ∷ ys else y ∷ insert_sorted x ys

-- `sort.Strings`, and `sort.Slice` by `<`: the sorted list of the same texts.
unfoldable pub sort_strings : List String → List String
unfolding insert_sorted
sort_strings [] = []
sort_strings (x ∷ xs) = insert_sorted x (sort_strings xs)

abbrev HeadLe : String → List String → Type 0
HeadLe x [] = Unit {0}
HeadLe x (y ∷ ys) = string_leb x y ≡ true

abbrev pub IsSorted : List String → Type 0
IsSorted [] = Unit {0}
IsSorted (x ∷ xs) = HeadLe x xs × IsSorted xs

insert_sorted-IsSorted :
    (x : String) (xs : List String) → IsSorted xs → IsSorted (insert_sorted x xs)
unfolding insert_sorted
insert_sorted-IsSorted x [] h = (tt, tt)
insert_sorted-IsSorted x (y ∷ []) h = ground (arith, string_leb_total x y)
insert_sorted-IsSorted x (y ∷ z ∷ zs) h =
    ground (arith, string_leb_total x y, insert_sorted-IsSorted x (z ∷ zs) h.1)

pub sort_strings-IsSorted : (xs : List String) → IsSorted (sort_strings xs)
unfolding sort_strings
sort_strings-IsSorted [] = tt
sort_strings-IsSorted (x ∷ xs) =
    insert_sorted-IsSorted x (sort_strings xs) (sort_strings-IsSorted xs)

contains-insert_sorted :
    (p x : String) (xs : List String) → contains p (insert_sorted x xs) ≡ (x == p || contains p xs)
unfolding insert_sorted
contains-insert_sorted p x [] = refl
contains-insert_sorted p x (y ∷ ys) = ground (arith, contains-insert_sorted p x ys)

-- Sorting keeps what the list holds.
pub contains-sort_strings :
    (p : String) (xs : List String) → contains p (sort_strings xs) ≡ contains p xs
unfolding sort_strings
contains-sort_strings p [] = refl
contains-sort_strings p (x ∷ xs) =
    ground (arith, contains-insert_sorted p x (sort_strings xs), contains-sort_strings p xs)

insert_sorted-Distinct :
    (x : String) (xs : List String)
    → contains x xs ≡ false
    → Distinct xs
    → Distinct (insert_sorted x xs)
unfolding insert_sorted
insert_sorted-Distinct x [] h d = (refl, tt)
insert_sorted-Distinct x (y ∷ ys) h d =
    ground
      (arith, eq_iff x y, eq_iff y x, contains-insert_sorted y x ys, insert_sorted-Distinct x ys)

pub sort_strings-Distinct : (xs : List String) → Distinct xs → Distinct (sort_strings xs)
unfolding sort_strings
sort_strings-Distinct [] d = tt
sort_strings-Distinct (x ∷ xs) d =
    insert_sorted-Distinct x (sort_strings xs) (rw (contains-sort_strings x xs) d.0)
      (sort_strings-Distinct xs d.1)
