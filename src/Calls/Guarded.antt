-- ===== src/Calls/Guarded.antt =====
-- The operations of internal/service/call that keep what it must because of what they check first: those that
-- activate a call that rings.
use aloqa_codex.Common.{
  ℕ, true, List, [], ◌∷◌, Option, none, some, ◌≡◌, refl, inl, inr, arith, nat_eqb_iff, subst, sym,
  ap, ◌∙◌,
}
use aloqa_codex.Common.Int.{ℤ}
use aloqa_codex.Cerrors.{ok, Result-cases}
use aloqa_codex.Calls.Types.{
  Call, active, connected, ParticipantStatus, CallParticipant, is_waiting, is_ringing,
}
use aloqa_codex.Calls.Store.{Db, Action, Event, is_call, find_where}
use aloqa_codex.Calls.Participants.{
  add_participant, add_participant_if_capacity, update_participant_status,
}
use aloqa_codex.Calls.Actions.{◌⨾◌, do_publish, either, with_error, recovering, done}
use aloqa_codex.Calls.Service.{Service, TxScope, require_host_or_co_host, require_call_access}
use aloqa_codex.Calls.Targets.{ParticipantTarget, get_participant_by_target}
use aloqa_codex.Calls.Rows.{find-has}
use aloqa_codex.Calls.Found.{require_call_access-found}
use aloqa_codex.Calls.Starting.{add_participant_with_optional_capacity}
use aloqa_codex.Calls.Joining.{
  activates, join_tx, join_direct, join_writes, join_new, join_or_rejoin, join_checks, join_call,
}
use aloqa_codex.Calls.Hosting.{
  activate, admit_one, admit_each, admit_all, admit_participant, waiting_checks, list_for_moderator,
}
use aloqa_codex.Calls.Kept.{
  answering, Kept, Kept-refl, Kept-trans, status_of, call_key, status_or_none,
}
use aloqa_codex.Calls.Keeping.{
  Ensures, Keeps, Keeps-lift, Keeps-done, Keeps-bind, Keeps-with_error, Keeps-either, Keeps-by_tx,
  Ensures-within_tx, Ensures-bind, Ensures-from, Keeps-logged, reading_at,
}
use aloqa_codex.Calls.Writes.{update_status-Kept}
use aloqa_codex.Calls.RowWrites.{
  add_participant-Kept, update_participant_status-Kept, do_publish-Kept,
}
use aloqa_codex.Calls.Keepers.{keepers, rejoin-Keeps, add_participant_with_optional_capacity-Keeps}

-- What a step that activates the call relies on.
abbrev pub Unmoved : Db → Call → Db → Type 0
Unmoved start call db = Kept answering start db × (status_of call.id db.calls ≡ some call.status)

pub Unmoved-start :
    (db : Db) (c : ℕ) (call : Call)
    → find_where (is_call c) db.calls ≡ some call
    → Unmoved db call db
unfolding status_of
Unmoved-start db c call e =
    let own : call.id ≡ c =
      (nat_eqb_iff call.id c).0 (find-has call_key (is_call c) call db.calls e) in
    (
      Kept-refl db,
      ap status_or_none (subst (λ k. find_where (is_call k) db.calls ≡ some call) (sym own) e),
    )

pub add_participant-calls :
    (p : CallParticipant) (db : Db) → (add_participant p db).0.calls ≡ db.calls
unfolding add_participant
add_participant-calls p db = ground arith

pub add_participant_with_optional_capacity-calls :
    (p : CallParticipant) (capacity : ℤ) (db : Db)
    → (add_participant_with_optional_capacity p capacity db).0.calls ≡ db.calls
unfolding add_participant_with_optional_capacity add_participant_if_capacity add_participant either
    with_error
add_participant_with_optional_capacity-calls p capacity db = ground arith

module _ (start : Db) (call : Call) where
  Unmoved-step :
      {A : Type 0} (m : Action A)
      → ((db : Db) → Kept answering db (m db).0)
      → ((db : Db) → (m db).0.calls ≡ db.calls)
      → Keeps (Unmoved start call) m
  Unmoved-step m kept same = record {
    at = λ db (k, e). (Kept-trans k (kept db), ap (status_of call.id) (same db) ∙ e);
  }

  Kept-of : (db : Db) → Unmoved start call db → Kept answering start db
  Kept-of db h = h.0

  activates-Ensures : Ensures (Unmoved start call) (Kept answering start) (activates call)
  activates-Ensures =
      Keeps-either (is_ringing call.status) _ _
        (λ rings. record {
          at = λ db (k, e). Kept-trans k (update_status-Kept call.id active db (ground arith));
        })
        (λ _. Ensures-from (Unmoved start call) (Kept _ start) _ Kept-of (search keepers depth 24))

  -- ---- JoinCall

  join_tx-Ensures :
      (scope : TxScope) (p : CallParticipant)
      → Ensures (Unmoved start call) (Kept answering start) (join_tx scope call p)
  join_tx-Ensures scope p = Ensures-bind _ _ (Unmoved start call) (Keeps-lift _) Kept-of λ _.
      Ensures-bind _ _ (Unmoved start call)
        (Unmoved-step (add_participant p) (add_participant-Kept p) (add_participant-calls p))
        Kept-of
        λ _.
          Keeps-either {Q = Kept _ start} (is_waiting p.status) _ _
            (λ _.
              Ensures-from (Unmoved start call) (Kept _ start) _ Kept-of (search keepers depth 24))
            (λ _.
              Ensures-bind {Q = Kept _ start} _ _ (Kept _ start) activates-Ensures (λ db k. k)
                (λ _. search keepers depth 24))

  join_direct-Ensures :
      (p : CallParticipant) (capacity : ℤ)
      → Ensures (Unmoved start call) (Kept answering start) (join_direct call p capacity)
  join_direct-Ensures p capacity =
      Ensures-bind _ _ (Unmoved start call)
        (Keeps-with_error _ _ (
          Unmoved-step (add_participant_with_optional_capacity p capacity)
            (λ db.
              (add_participant_with_optional_capacity-Keeps db p capacity).at db (Kept-refl db))
            (add_participant_with_optional_capacity-calls p capacity)))
        Kept-of
        λ _.
          Keeps-either {Q = Kept _ start} (is_waiting p.status) _ _
            (λ _.
              Ensures-from (Unmoved start call) (Kept _ start) _ Kept-of (search keepers depth 24))
            (λ _.
              Ensures-bind {Q = Kept _ start} _ _ (Kept _ start) (Keeps-logged _ activates-Ensures)
                (λ db k. k) (λ _. search keepers depth 24))

  join_writes-Ensures :
      (s : Service) (p : CallParticipant)
      → Ensures (Unmoved start call) (Kept answering start) (join_writes s call p)
  unfolding join_writes
  join_writes-Ensures s p = Keeps-by_tx s.tx _ _ (join_direct-Ensures p _) λ scope.
      Keeps-with_error _ _ (Ensures-within_tx (Kept _ start) _ Kept-of (join_tx-Ensures scope p))

  join_new-Ensures :
      (s : Service) (id now u : ℕ)
      → Ensures (Unmoved start call) (Kept answering start) (join_new s call id now u)
  unfolding join_new
  join_new-Ensures s id now u = record {
    at = λ db h.
        reading_at (Kept _ start) _ _ db
          (λ _ _.
            (Ensures-bind _ _ (Kept _ start) (join_writes-Ensures s _) (λ d k. k)
                (λ _. Keeps-done _)).at
              db h)
          h.0;
  }

  -- ---- the waiting room

  activate-Ensures : Ensures (Unmoved start call) (Kept answering start) (activate call)
  activate-Ensures =
      Keeps-either (is_ringing call.status) _ _
        (λ rings. Keeps-with_error _ _ record {
          at = λ db (k, e). Kept-trans k (update_status-Kept call.id active db (ground arith));
        })
        (λ _. Ensures-from (Unmoved start call) (Kept _ start) _ Kept-of (search keepers depth 24))

  admit_writes-Ensures :
      (p : CallParticipant) (m : Action (Unit {0}))
      → Keeps (Unmoved start call) m
      → Ensures (Unmoved start call) (Kept answering start) (m ⨾ activate call)
  admit_writes-Ensures p m k =
      Ensures-bind _ _ (Unmoved start call) k Kept-of (λ _. activate-Ensures)

-- ---- JoinCall

join_checks-found :
    (s : Service) (db : Db) (w c u : ℕ) (call : Call) (existing : Option CallParticipant)
    → join_checks s db w c u ≡ ok (call, existing)
    → find_where (is_call c) db.calls ≡ some call
unfolding join_checks
join_checks-found s db w c u call existing h =
    elim (Result-cases (require_call_access s db w c u)) [
      | inr (e, bad) ↦ absurd (ground arith)
      | inl (given, fine) ↦ ground (arith, require_call_access-found s db w c u given fine)
    ]

join_or_rejoin-Kept :
    (s : Service) (call : Call) (existing : Option CallParticipant) (id now u : ℕ) (db : Db)
    → Unmoved db call db
    → Kept answering db (join_or_rejoin s call existing id now u db).0
join_or_rejoin-Kept s call (some p) id now u db h =
    (rejoin-Keeps db s call p now).at db (Kept-refl db)
join_or_rejoin-Kept s call none id now u db h = (join_new-Ensures db call s id now u).at db h

pub join_call-Kept :
    (s : Service) (id now w c u : ℕ) (db : Db) → Kept answering db (join_call s id now w c u db).0
unfolding join_call
join_call-Kept s id now w c u db =
    reading_at (Kept _ db) _ _ db
      (λ (call, existing) h.
        join_or_rejoin-Kept s call existing id now u db
          (Unmoved-start db c call (join_checks-found s db w c u call existing h)))
      (Kept-refl db)

-- ---- the waiting room

admit_one-calls :
    (call : Call) (p : CallParticipant) (db : Db) → (admit_one call p db).0.calls ≡ db.calls
unfolding either recovering done update_participant_status do_publish
admit_one-calls call p db = ground arith

admit_one-Keeps :
    (start : Db) (call : Call) (p : CallParticipant)
    → Keeps (Kept answering start) (admit_one call p)
admit_one-Keeps start call p = search keepers depth 24

admit_each-Keeps :
    (start : Db) (call : Call) (ps : List CallParticipant)
    → Keeps (Unmoved start call) (admit_each call ps)
unfolding admit_each
admit_each-Keeps start call [] = Keeps-done tt
admit_each-Keeps start call (p ∷ ps) =
    Keeps-bind (admit_one call p) _
      (Unmoved-step start call (admit_one call p)
        (λ db. (admit_one-Keeps db call p).at db (Kept-refl db)) (admit_one-calls call p))
      (λ _. admit_each-Keeps start call ps)

list_for_moderator-found :
    (s : Service) (db : Db) (w c u : ℕ) (call : Call) (ps : List CallParticipant)
    → list_for_moderator s db w c u ≡ ok (call, ps)
    → find_where (is_call c) db.calls ≡ some call
unfolding list_for_moderator
list_for_moderator-found s db w c u call ps h =
    elim (Result-cases (require_call_access s db w c u)) [
      | inr (e, bad) ↦ absurd (ground arith)
      | inl (given, fine) ↦ ground (arith, require_call_access-found s db w c u given fine)
    ]

pub admit_all-Kept :
    (s : Service) (w c u : ℕ) (db : Db) → Kept answering db (admit_all s w c u db).0
unfolding admit_all
admit_all-Kept s w c u db =
    reading_at (Kept _ db) _ _ db
      (λ (call, ps) h.
        (Ensures-bind {Q = Kept _ db} _ _ (Unmoved db call) (admit_each-Keeps db call ps)
            (Kept-of db call) (λ _. activate-Ensures db call)).at
          db (Unmoved-start db c call (list_for_moderator-found s db w c u call ps h)))
      (Kept-refl db)

-- What the checks of `AdmitParticipant` and `RejectParticipant` have seen.
pub waiting_checks_sound :
    (s : Service) (db : Db) (w c u : ℕ) (target : ParticipantTarget) (call : Call)
    (p : CallParticipant)
    → waiting_checks s db w c u target ≡ ok (call, p)
    → (require_call_access s db w c u ≡ ok call)
      × (require_host_or_co_host db c u ≡ ok tt)
      × (get_participant_by_target db c target ≡ ok p)
      × (is_waiting p.status ≡ true)
unfolding waiting_checks
waiting_checks_sound s db w c u target call p h =
    (ground arith, ground arith, ground arith, ground arith)

update_participant_status-calls :
    (id : ℕ) (status : ParticipantStatus) (db : Db)
    → (update_participant_status id status db).0.calls ≡ db.calls
unfolding update_participant_status
update_participant_status-calls id status db = ground arith

do_publish-calls : (e : Event) (db : Db) → (do_publish e db).0.calls ≡ db.calls
unfolding do_publish
do_publish-calls e db = refl

pub admit_participant-Kept :
    (s : Service) (w c u : ℕ) (target : ParticipantTarget) (db : Db)
    → Kept answering db (admit_participant s w c u target db).0
unfolding admit_participant
admit_participant-Kept s w c u target db =
    reading_at (Kept _ db) _ _ db
      (λ (call, p) h.
        (Ensures-bind {Q = Kept _ db} _ _ (Unmoved db call)
            (Keeps-with_error _ _ (
              Unmoved-step db call (update_participant_status p.id connected)
                (λ d. update_participant_status-Kept p.id connected d refl)
                (update_participant_status-calls p.id connected)))
            (Kept-of db call)
            λ _.
              Ensures-bind {Q = Kept _ db} _ _ (Unmoved db call)
                (Unmoved-step db call (do_publish _) (do_publish-Kept _) (do_publish-calls _))
                (Kept-of db call) (λ _. activate-Ensures db call)).at
          db
          (Unmoved-start db c call (
            require_call_access-found s db w c u call
              (waiting_checks_sound s db w c u target call p h).0)))
      (Kept-refl db)
