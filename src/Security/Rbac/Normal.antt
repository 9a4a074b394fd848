-- ===== src/Security/Rbac/Normal.antt =====
-- What `NormalizePermissionStrings` of internal/security/rbac/rbac.go returns.
use aloqa_codex.Common.{
  String, Bool, true, false, ◌||◌, List, [], ◌∷◌, ◌++◌, map, none, some, ◌≡◌, refl, inl, inr, arith,
  Bool-cases, ◌∙◌,
}
use aloqa_codex.Common.Equality.{
  contains, contains-append, Distinct, Distinct-snoc, ◌==◌, string_eq,
}
use aloqa_codex.Common.Text.{
  trim_space, sort_strings, IsSorted, sort_strings-IsSorted, sort_strings-Distinct,
  contains-sort_strings,
}
use text.Mathlib.TextEquality.{eq_iff}
use aloqa_codex.Cerrors.{ok, Result-cases}
use aloqa_codex.Security.Rbac.Parse.{
  all_permissions, parse_permission, normalize_from, normalize_permission_strings,
}

abbrev pub is_valid : String → Bool
is_valid value = contains (trim_space value) all_permissions

abbrev pub AllValid : List String → Type 0
AllValid [] = Unit {0}
AllValid (value ∷ raw) = (is_valid value ≡ true) × AllValid raw

pub parse_valid :
    (value : String) → is_valid value ≡ true → parse_permission value ≡ some (trim_space value)
unfolding parse_permission
parse_valid value h = ground arith

pub parse_invalid : (value : String) → is_valid value ≡ false → parse_permission value ≡ none
unfolding parse_permission
parse_invalid value h = ground arith

-- What the loop has found, at its end.
record Collected (before raw out : List String) : Type 0 where
  distinct : Distinct out
  same : (p : String) → contains p out ≡ (contains p before || contains p (map trim_space raw))
  valid : AllValid raw

Collected-cons :
    (before next raw out : List String) (value : String)
    → is_valid value ≡ true
    → ((p : String) → contains p next ≡ (contains p before || trim_space value == p))
    → Collected next raw out
    → Collected before (value ∷ raw) out
Collected-cons before next raw out value v n c = record {
  distinct = c.distinct;
  same = λ p. ground (arith, c.same p, n p);
  valid = (v, c.valid);
}

normalize_from-Collected :
    (before raw out : List String)
    → Distinct before
    → normalize_from before raw ≡ ok out
    → Collected before raw out
unfolding normalize_from
normalize_from-Collected before [] out d h = record {
  distinct = ground arith;
  same = λ p. ground arith;
  valid = tt;
}
normalize_from-Collected before (value ∷ raw) out d h = elim (Bool-cases (is_valid value)) [
  | inr bad ↦ cc (rw (parse_invalid value bad, normalize_from) at h)
  | inl good ↦ elim (Bool-cases (contains (trim_space value) before)) [
    | inl old ↦
        Collected-cons before before raw out value good
          (λ p. ground (arith, eq_iff (trim_space value) p))
          (normalize_from-Collected before raw out d
            (rw (parse_valid value good, old, normalize_from) at h))
    | inr new ↦
        Collected-cons before (before ++ trim_space value ∷ []) raw out value good
          (λ p. ground (arith, contains-append p before (trim_space value ∷ [])))
          (normalize_from-Collected (before ++ trim_space value ∷ []) raw out
            (Distinct-snoc (trim_space value) before new d)
            (rw (parse_valid value good, new, normalize_from) at h))
  ]
]

normalize_from-AllValid :
    (before raw : List String)
    → AllValid raw
    → (out : List String) × (normalize_from before raw ≡ ok out)
unfolding normalize_from
normalize_from-AllValid before [] v = (before, refl)
normalize_from-AllValid before (value ∷ raw) (good, v) =
    elim (Bool-cases (contains (trim_space value) before)) [
      | inl old ↦
          rw (parse_valid value good, old, normalize_from) (normalize_from-AllValid before raw v)
      | inr new ↦
          rw (parse_valid value good, new, normalize_from)
            (normalize_from-AllValid (before ++ trim_space value ∷ []) raw v)
    ]

-- When `NormalizePermissionStrings` returns a list, every text of the input names a permission
-- once trimmed, and the list is sorted, repeats nothing, and holds exactly the trimmed texts.
pub normalize_permission_strings_sound :
    (raw out : List String)
    → normalize_permission_strings raw ≡ ok out
    → AllValid raw
      × IsSorted out
      × Distinct out
      × ((p : String) → contains p out ≡ contains p (map trim_space raw))
unfolding normalize_permission_strings
normalize_permission_strings_sound raw out h = elim (Result-cases (normalize_from [] raw)) [
  | inr (e, failed) ↦ absurd (cc (h, failed))
  | inl (found, done) ↦
      let c : Collected [] raw found = normalize_from-Collected [] raw found tt done in
      let e : sort_strings found ≡ out = ground (arith, h, done) in
      (
        c.valid,
        rw (← e) (sort_strings-IsSorted found),
        rw (← e) (sort_strings-Distinct found c.distinct),
        λ p. rw (← e) (contains-sort_strings p found ∙ c.same p),
      )
]

-- `NormalizePermissionStrings` returns a list whenever every text of the input, once trimmed, names a
-- permission.
pub normalize_permission_strings_total :
    (raw : List String)
    → AllValid raw
    → (out : List String) × (normalize_permission_strings raw ≡ ok out)
unfolding normalize_permission_strings
normalize_permission_strings_total raw v =
    let (found, done) = normalize_from-AllValid [] raw v in
    (sort_strings found, rw (done, normalize_permission_strings))
