-- ===== src/Calls/Keeping.antt =====
-- Postconditions of actions, with a rule for each way in which internal/service/call puts them together.
use aloqa_codex.Common.{Bool, true, false, Option, none, some, ◌≡◌, refl}
use aloqa_codex.Cerrors.{GoError, Result, ok, err}
use aloqa_codex.Calls.Store.{Db, Action, begin_st, commit_st}
use aloqa_codex.Calls.Actions.{
  done, lift, with_error, within_tx, commit, committed, begun, either, recovering, recovered,
  logged, bind, continue, reading, inspecting, inspected,
}
use aloqa_codex.Calls.Service.{TxScope, by_tx}
use aloqa_codex.Calls.Kept.{Cause, Kept, Kept-trans}

-- Where `m` starts in `P`, it ends in `Q`, with a value or with an error.
pub record Ensures {A : Type 0} (P Q : Db → Type 0) (m : Action A) : Type 0 where
  pub at : (db : Db) → P db → Q (m db).0

abbrev pub Keeps : {A : Type 0} → (Db → Type 0) → Action A → Type 0
Keeps P m = Ensures P P m

-- A statement that keeps what it must from every state does so from where the operation began.
pub Keeps-since :
    {k : Cause} {A : Type 0} (start : Db) (m : Action A)
    → ((db : Db) → Kept k db (m db).0)
    → Keeps (Kept k start) m
Keeps-since start m k = record { at = λ db h. Kept-trans h (k db) }

commit_at :
    {A : Type 0} (Q : Db → Type 0) (db db' : Db) (a : A) (o : Option GoError)
    → Q db
    → Q db'
    → Q (commit db db' a o).0
commit_at Q db db' a none old new = new
commit_at Q db db' a (some e) old new = old

committed_at :
    {A : Type 0} (Q : Db → Type 0) (db db' : Db) (r : Result A)
    → Q db
    → Q db'
    → Q (committed db (db', r)).0
committed_at Q db db' (ok a) old new = commit_at Q db db' a (db'.fault commit_st 0) old new
committed_at Q db db' (err e) old new = old

begun_at :
    {A : Type 0} (Q : Db → Type 0) (m : Action A) (db : Db) (o : Option GoError)
    → Q db
    → Q (m db).0
    → Q (begun db m o).0
begun_at Q m db none old new = committed_at Q db (m db).0 (m db).1 old new
begun_at Q m db (some e) old new = old

commit_err :
    {A : Type 0} (db db' : Db) (a : A) (o : Option GoError) (e : GoError)
    → (commit db db' a o).1 ≡ err e
    → (commit db db' a o).0 ≡ db
commit_err db db' a none e h = absurd (cc)
commit_err db db' a (some x) e h = refl

committed_err :
    {A : Type 0} (db db' : Db) (r : Result A) (e : GoError)
    → (committed db (db', r)).1 ≡ err e
    → (committed db (db', r)).0 ≡ db
committed_err db db' (ok a) e h = commit_err db db' a (db'.fault commit_st 0) e h
committed_err db db' (err x) e h = refl

begun_err :
    {A : Type 0} (m : Action A) (db : Db) (o : Option GoError) (e : GoError)
    → (begun db m o).1 ≡ err e
    → (begun db m o).0 ≡ db
begun_err m db none e h = committed_err db (m db).0 (m db).1 e h
begun_err m db (some x) e h = refl

-- An error of a transaction leaves the state as it was.
pub within_tx_err :
    {A : Type 0} (m : Action A) (db : Db) (e : GoError)
    → (within_tx m db).1 ≡ err e
    → (within_tx m db).0 ≡ db
unfolding within_tx
within_tx_err m db e h = begun_err m db (db.fault begin_st 0) e h

-- What an action that goes on, or stops, ends in.
module _ {A B : Type 0} where
  pub continue_ok :
      (f : A → Action B) (o : Db × Result A) (a : A) → o.1 ≡ ok a → continue f o ≡ f a o.0
  continue_ok f (db, ok b) a h = cc
  continue_ok f (db, err e) a h = absurd (cc)

  pub continue_err :
      (f : A → Action B) (o : Db × Result A) (e : GoError)
      → o.1 ≡ err e
      → continue f o ≡ (o.0, err e)
  continue_err f (db, ok b) e h = absurd (cc)
  continue_err f (db, err x) e h = cc

module _ {A B : Type 0} (Q : Db → Type 0) where
  continue_at :
      (f : A → Action B) (db : Db) (r : Result A)
      → ((a : A) → r ≡ ok a → Q (f a db).0)
      → Q db
      → Q (continue f (db, r)).0
  continue_at f db (ok a) next h = next a refl
  continue_at f db (err e) next h = h

  -- The rest starts in the state that was read, and may use the value.
  pub reading_at :
      (read : Db → Result A) (f : A → Action B) (db : Db)
      → ((a : A) → read db ≡ ok a → Q (f a db).0)
      → Q db
      → Q (reading read f db).0
  unfolding reading
  reading_at read f db next h = continue_at f db (read db) next h

  -- The rest starts where the first step ended.
  pub bind_at :
      (m : Action A) (f : A → Action B) (db : Db)
      → Q (m db).0
      → ((a : A) → Ensures Q Q (f a))
      → Q (bind m f db).0
  unfolding bind
  bind_at m f db first kf = continue_at f (m db).0 (m db).1 (λ a _. (kf a).at (m db).0 first) first

pub Ensures-from :
    {A : Type 0} (P Q : Db → Type 0) (m : Action A)
    → ((db : Db) → P db → Q db)
    → Keeps Q m
    → Ensures P Q m
Ensures-from P Q m weaken k = record { at = λ db h. k.at db (weaken db h) }

module _ {A : Type 0} {P : Db → Type 0} where
  pub Keeps-done : (a : A) → Keeps P (done a)
  unfolding done
  Keeps-done a = record { at = λ db h. h }

  pub Keeps-lift : (r : Result A) → Keeps P (lift r)
  unfolding lift
  Keeps-lift r = record { at = λ db h. h }

  pub Keeps-with_error :
      {Q : Db → Type 0} (f : GoError → GoError) (m : Action A)
      → Ensures P Q m
      → Ensures P Q (with_error f m)
  unfolding with_error
  Keeps-with_error f m k = record { at = λ db h. k.at db h }

  pub Ensures-within_tx :
      (Q : Db → Type 0) (m : Action A)
      → ((db : Db) → P db → Q db)
      → Ensures P Q m
      → Ensures P Q (within_tx m)
  unfolding within_tx
  Ensures-within_tx Q m weaken k = record {
    at = λ db h. begun_at Q m db (db.fault begin_st 0) (weaken db h) (k.at db h);
  }

  pub Keeps-within_tx : (m : Action A) → Keeps P m → Keeps P (within_tx m)
  unfolding within_tx
  Keeps-within_tx m k = record { at = λ db h. begun_at P m db (db.fault begin_st 0) h (k.at db h) }

  pub Keeps-either :
      {Q : Db → Type 0} (b : Bool) (m n : Action A)
      → (b ≡ true → Ensures P Q m)
      → (b ≡ false → Ensures P Q n)
      → Ensures P Q (either b m n)
  unfolding either
  Keeps-either true m n km kn = km refl
  Keeps-either false m n km kn = kn refl

  pub Keeps-by_tx :
      {Q : Db → Type 0} (tx : Option TxScope) (m : Action A) (n : TxScope → Action A)
      → Ensures P Q m
      → ((scope : TxScope) → Ensures P Q (n scope))
      → Ensures P Q (by_tx tx m n)
  unfolding by_tx
  Keeps-by_tx none m n km kn = km
  Keeps-by_tx (some scope) m n km kn = kn scope

  pub Keeps-logged : {Q : Db → Type 0} (m : Action A) → Ensures P Q m → Ensures P Q (logged m)
  unfolding logged
  Keeps-logged m k = record { at = λ db h. k.at db h }

  recovered_at :
      (m n : Action A) (db : Db) (r : Result (Unit {0}))
      → Keeps P m
      → Keeps P n
      → P db
      → P (recovered m n (db, r)).0
  recovered_at m n db (ok _) km kn h = km.at db h
  recovered_at m n db (err _) km kn h = kn.at db h

  pub Keeps-recovering :
      (step : Action (Unit {0})) (m n : Action A)
      → Keeps P step
      → Keeps P m
      → Keeps P n
      → Keeps P (recovering step m n)
  unfolding recovering
  Keeps-recovering step m n ks km kn = record {
    at = λ db h. recovered_at m n (step db).0 (step db).1 km kn (ks.at db h);
  }

module _ {A B : Type 0} {P Q : Db → Type 0} where
  -- The first step may give up what the rest has no need of.
  pub Ensures-bind :
      (m : Action A) (f : A → Action B) (M : Db → Type 0)
      → Ensures P M m
      → ((db : Db) → M db → Q db)
      → ((a : A) → Ensures M Q (f a))
      → Ensures P Q (bind m f)
  unfolding bind
  Ensures-bind m f M km weaken kf = record {
    at = λ db h.
        continue_at Q f (m db).0 (m db).1 (λ a _. (kf a).at (m db).0 (km.at db h))
          (weaken (m db).0 (km.at db h));
  }

module _ {A B : Type 0} {P : Db → Type 0} where
  pub Keeps-bind :
      (m : Action A) (f : A → Action B) → Keeps P m → ((a : A) → Keeps P (f a)) → Keeps P (bind m f)
  Keeps-bind m f km kf = Ensures-bind m f P km (λ db h. h) kf

  pub Keeps-reading :
      (read : Db → Result A) (f : A → Action B)
      → ((a : A) → Keeps P (f a))
      → Keeps P (reading read f)
  Keeps-reading read f k = record { at = λ db h. reading_at P read f db (λ a _. (k a).at db h) h }

  inspected_at :
      (m : Action B) (f : A → Action B) (db : Db) (r : Result A)
      → Keeps P m
      → ((a : A) → Keeps P (f a))
      → P db
      → P (inspected m f db r).0
  inspected_at m f db (ok a) km kf h = (kf a).at db h
  inspected_at m f db (err e) km kf h = km.at db h

  pub Keeps-inspecting :
      (read : Db → Result A) (m : Action B) (f : A → Action B)
      → Keeps P m
      → ((a : A) → Keeps P (f a))
      → Keeps P (inspecting read m f)
  unfolding inspecting
  Keeps-inspecting read m f km kf = record { at = λ db h. inspected_at m f db (read db) km kf h }

pub ruleset keeps_rules = (
  Keeps-done, Keeps-lift, Keeps-with_error, Keeps-within_tx, Keeps-either, Keeps-by_tx,
  Keeps-logged, Keeps-recovering, Keeps-bind, Keeps-reading, Keeps-inspecting,
)
