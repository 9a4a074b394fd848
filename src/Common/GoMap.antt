-- ===== src/Common/GoMap.antt =====
-- A Go map as an association list: a write replaces or adds, `delete` removes every entry of the
-- key, and `range` visits the keys with the value that the map holds for each.
use mathlib.Core.Path.{◌≡◌, refl, subst}
use mathlib.Core.Bool.{true, false, not, ◌&&◌, ◌||◌}
use mathlib.Core.Option.{Option, none, some}
use mathlib.Core.List.{List, [], ◌∷◌}
use native.Mathlib.Omega.{arith}
use aloqa_codex.Common.Tests.{if◌then◌else◌, Bool-cases}
use aloqa_codex.Common.Equality.{Eq, ◌==◌, contains, Distinct}
use aloqa_codex.Common.Lists.{All}
use mathlib.Core.Logic.{inl, inr}

abbrev pub GoMap {ℓ κ} : Type ℓ → Type κ → Type (ℓ ⊔ κ)
GoMap K V = List (K × V)

module _ {ℓ κ} {K : Type ℓ} {V : Type κ} where
  abbrev pub keys : GoMap K V → List K
  keys [] = []
  keys ((k, v) ∷ m) = k ∷ keys m

module _ {ℓ κ} {K : Type ℓ} {V : Type κ} ⦃e : Eq K⦄ where
  unfoldable pub get : K → GoMap K V → Option V
  get k [] = none
  get k ((j, v) ∷ m) = if j == k then some v else get k m

  unfoldable pub set : K → V → GoMap K V → GoMap K V
  set k v [] = (k, v) ∷ []
  set k v ((j, w) ∷ m) = if j == k then (k, v) ∷ m else (j, w) ∷ set k v m

  unfoldable pub delete : K → GoMap K V → GoMap K V
  delete k [] = []
  delete k ((j, w) ∷ m) = if j == k then delete k m else (j, w) ∷ delete k m

  pub get-set :
      (k j : K) (v : V) (m : GoMap K V) → get j (set k v m) ≡ (if k == j then some v else get j m)
  unfolding get set
  get-set k j v [] = refl
  get-set k j v ((i, w) ∷ m) =
      ground (arith, e.eqb_iff k j, e.eqb_iff i k, e.eqb_iff i j, get-set k j v m)

  pub get-delete :
      (k j : K) (m : GoMap K V) → get j (delete k m) ≡ (if k == j then none else get j m)
  unfolding get delete
  get-delete k j [] = ground arith
  get-delete k j ((i, w) ∷ m) =
      ground (arith, e.eqb_iff k j, e.eqb_iff i k, e.eqb_iff i j, get-delete k j m)

  -- A key that the map holds is visited by `range`, and only such a key.
  pub contains-keys :
      (k : K) (m : GoMap K V)
      → contains k (keys m) ≡ (elim (get k m) [ none ↦ false | some _ ↦ true ])
  unfolding get
  contains-keys k [] = refl
  contains-keys k ((j, w) ∷ m) = ground (arith, contains-keys k m)

  -- ---- maps as lists of distinct keys

  pub contains-keys-set :
      (k j : K) (v : V) (m : GoMap K V)
      → contains j (keys (set k v m)) ≡ (k == j || contains j (keys m))
  unfolding set
  contains-keys-set k j v [] = refl
  contains-keys-set k j v ((i, w) ∷ m) =
      ground (arith, e.eqb_iff i k, e.eqb_iff i j, e.eqb_iff k j, contains-keys-set k j v m)

  pub contains-keys-delete :
      (k j : K) (m : GoMap K V)
      → contains j (keys (delete k m)) ≡ (not (k == j) && contains j (keys m))
  unfolding delete
  contains-keys-delete k j [] = ground arith
  contains-keys-delete k j ((i, w) ∷ m) =
      ground (arith, e.eqb_iff i k, e.eqb_iff i j, e.eqb_iff k j, contains-keys-delete k j m)

  pub set-Distinct :
      (k : K) (v : V) (m : GoMap K V) → Distinct (keys m) → Distinct (keys (set k v m))
  unfolding set
  set-Distinct k v [] d = (refl, tt)
  set-Distinct k v ((i, w) ∷ m) d =
      ground (arith, e.eqb_iff i k, e.eqb_iff k i, contains-keys-set k i v m, set-Distinct k v m)

  pub delete-Distinct : (k : K) (m : GoMap K V) → Distinct (keys m) → Distinct (keys (delete k m))
  unfolding delete
  delete-Distinct k [] d = tt
  delete-Distinct k ((i, w) ∷ m) d = ground (arith, contains-keys-delete k i m, delete-Distinct k m)

  -- A property of every entry, kept by the operations.
  pub All-set {ι} :
      (P : K × V → Type ι) (k : K) (v : V) (m : GoMap K V) → P (k, v) → All P m → All P (set k v m)
  unfolding set
  All-set P k v [] p h = (p, tt)
  All-set P k v ((i, w) ∷ m) p h = elim (Bool-cases (i == k)) [
    | inl hit ↦ rw hit (p, h.1)
    | inr miss ↦ rw miss (h.0, All-set P k v m p h.1)
  ]

  pub All-delete {ι} : (P : K × V → Type ι) (k : K) (m : GoMap K V) → All P m → All P (delete k m)
  unfolding delete
  All-delete P k [] h = tt
  All-delete P k ((i, w) ∷ m) h = elim (Bool-cases (i == k)) [
    | inl hit ↦ rw hit (All-delete P k m h.1)
    | inr miss ↦ rw miss (h.0, All-delete P k m h.1)
  ]

  pub All-get {ι} :
      (P : K × V → Type ι) (k : K) (v : V) (m : GoMap K V) → All P m → get k m ≡ some v → P (k, v)
  unfolding get
  All-get P k v [] h g = absurd (cc)
  All-get P k v ((i, w) ∷ m) h g = elim (Bool-cases (i == k)) [
    | inl hit ↦ subst P (ground (arith, e.eqb_iff i k)) h.0
    | inr miss ↦ All-get P k v m h.1 (rw (miss, get) at g)
  ]
