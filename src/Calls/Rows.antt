-- ===== src/Calls/Rows.antt =====
-- Rows by their keys, under the statements of internal/repository/postgres/call.go.
use aloqa_codex.Common.{
  ℕ, Bool, true, false, List, [], ◌∷◌, Option, none, some, any, ◌≡◌, refl, inl, inr, arith,
  if◌then◌else◌, nat_eqb, Bool-cases,
}
use aloqa_codex.Calls.Store.{find_where, update_where, delete_where}

module _ {ℓ} {A : Type ℓ} (key : A → ℕ) where
  abbrev pub has_key : ℕ → A → Bool
  has_key id x = nat_eqb (key x) id

  -- No two rows share a key.
  abbrev pub Keyed : List A → Type 0
  Keyed [] = Unit {0}
  Keyed (x ∷ xs) = (any (has_key (key x)) xs ≡ false) × Keyed xs

  abbrev pub map_row : (A → Bool) → (A → A) → Option A → Option A
  map_row p f none = none
  map_row p f (some x) = some (if p x then f x else x)

  pub find-update :
      (p : A → Bool) (f : A → A) (j : ℕ) (xs : List A)
      → ((x : A) → key (f x) ≡ key x)
      → find_where (has_key j) (update_where p f xs) ≡ map_row p f (find_where (has_key j) xs)
  unfolding find_where update_where
  find-update p f j [] same = refl
  find-update p f j (x ∷ xs) same = ground (arith, same x, find-update p f j xs same)

  -- A query that the change does not touch.
  pub find-update_unread :
      (q p : A → Bool) (f : A → A) (xs : List A)
      → ((x : A) → q (f x) ≡ q x)
      → find_where q (update_where p f xs) ≡ map_row p f (find_where q xs)
  unfolding find_where update_where
  find-update_unread q p f [] same = refl
  find-update_unread q p f (x ∷ xs) same = ground (arith, same x, find-update_unread q p f xs same)

  pub any-update :
      (p : A → Bool) (f : A → A) (j : ℕ) (xs : List A)
      → ((x : A) → key (f x) ≡ key x)
      → any (has_key j) (update_where p f xs) ≡ any (has_key j) xs
  unfolding update_where
  any-update p f j [] same = refl
  any-update p f j (x ∷ xs) same = ground (arith, same x, any-update p f j xs same)

  pub update-Keyed :
      (p : A → Bool) (f : A → A) (xs : List A)
      → ((x : A) → key (f x) ≡ key x)
      → Keyed xs
      → Keyed (update_where p f xs)
  unfolding update_where
  update-Keyed p f [] same k = tt
  update-Keyed p f (x ∷ xs) same (fresh, k) = elim (Bool-cases (p x)) [
    | inl hit ↦
        rw hit
          (rw (same x) (ground (arith, any-update p f (key x) xs same)), update-Keyed p f xs same k)
    | inr miss ↦
        rw miss (ground (arith, any-update p f (key x) xs same), update-Keyed p f xs same k)
  ]

  pub find-none :
      (j : ℕ) (xs : List A) → any (has_key j) xs ≡ false → find_where (has_key j) xs ≡ none
  unfolding find_where
  find-none j [] h = refl
  find-none j (x ∷ xs) h = ground (arith, find-none j xs)

  pub find-delete :
      (i j : ℕ) (xs : List A)
      → find_where (has_key j) (delete_where (has_key i) xs)
        ≡ (if nat_eqb i j then none else find_where (has_key j) xs)
  unfolding find_where delete_where
  find-delete i j [] = ground arith
  find-delete i j (x ∷ xs) = ground (arith, find-delete i j xs)

  pub any-delete :
      (p : A → Bool) (j : ℕ) (xs : List A)
      → any (has_key j) xs ≡ false
      → any (has_key j) (delete_where p xs) ≡ false
  unfolding delete_where
  any-delete p j [] h = refl
  any-delete p j (x ∷ xs) h = ground (arith, any-delete p j xs)

  pub delete-Keyed : (p : A → Bool) (xs : List A) → Keyed xs → Keyed (delete_where p xs)
  unfolding delete_where
  delete-Keyed p [] k = tt
  delete-Keyed p (x ∷ xs) (fresh, k) = elim (Bool-cases (p x)) [
    | inl hit ↦ rw hit (delete-Keyed p xs k)
    | inr miss ↦ rw miss (any-delete p (key x) xs fresh, delete-Keyed p xs k)
  ]

  pub find-has : (p : A → Bool) (x : A) (xs : List A) → find_where p xs ≡ some x → p x ≡ true
  unfolding find_where
  find-has p x [] h = absurd (cc)
  find-has p x (y ∷ ys) h = elim (Bool-cases (p y)) [
    | inl hit ↦ ground arith
    | inr miss ↦ find-has p x ys (rw miss at h)
  ]

  pub any-found :
      (p : A → Bool) (x : A) (xs : List A)
      → find_where p xs ≡ some x
      → any (has_key (key x)) xs ≡ true
  unfolding find_where
  any-found p x [] h = absurd (cc)
  any-found p x (y ∷ ys) h = elim (Bool-cases (p y)) [
    | inl hit ↦ ground arith
    | inr miss ↦ ground (arith, any-found p x ys (rw miss at h))
  ]

  -- A row that a query finds is the row of its key.
  pub find-own :
      (p : A → Bool) (x : A) (xs : List A)
      → Keyed xs
      → find_where p xs ≡ some x
      → find_where (has_key (key x)) xs ≡ some x
  unfolding find_where
  find-own p x [] k h = absurd (cc)
  find-own p x (y ∷ ys) (fresh, k) h = elim (Bool-cases (p y)) [
    | inl hit ↦ ground arith
    | inr miss ↦ ground (arith, any-found p x ys (rw miss at h), find-own p x ys k (rw miss at h))
  ]
