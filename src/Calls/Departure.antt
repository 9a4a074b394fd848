-- ===== src/Calls/Departure.antt =====
-- What `LeaveCall` of internal/service/call/service.go does where a transaction manager is set: the call ends with
-- its last participant.
use aloqa_codex.Common.{
  ℕ, Bool, true, false, not, ◌&&◌, List, [], ◌∷◌, some, any, ◌≡◌, ◌≢◌, ◌⊎◌, refl, inl, inr, arith,
  if◌then◌else◌, nat_eqb, nat_eqb_iff, sym, ap, subst, ◌∙◌,
}
use aloqa_codex.Cerrors.{GoError, ok, err, Result-cases}
use aloqa_codex.Calls.Types.{
  Call, CallStatus, ringing, active, ended, CallParticipant, disconnected, is_ended, is_present,
}
use aloqa_codex.Calls.Store.{Db, is_call, end, find_where, rows_where, update_where}
use aloqa_codex.Calls.Participants.{
  is_participant, is_in, get_participant, update_participant_status, list_participants,
}
use aloqa_codex.Calls.Actions.{
  done, lift, with_error, within_tx, either, bind, reading, do_publish, enqueue_realtime_tx,
}
use aloqa_codex.Calls.Service.{Service, TxScope, by_tx, require_call_access}
use aloqa_codex.Calls.Leaving.{
  closes_media, leave_checks, leave_tx, leave_writes, leave_call, has_other, gone,
}
use aloqa_codex.Calls.Found.{require_call_access-found}
use aloqa_codex.Calls.Closing.{StatusOnly, closes_media_lem, end_lem}
use aloqa_codex.Calls.Rows.{find-has}
use aloqa_codex.Calls.Keeping.{continue_ok, continue_err, within_tx_err}
use aloqa_codex.Calls.Kept.{call_key, status_of, status_or_none}

-- Whether someone else is joining the call or connected to it.
abbrev pub stays_on : ℕ → ℕ → CallParticipant → Bool
stays_on c id q = nat_eqb q.call_id c && not (nat_eqb q.id id) && is_present q.status

-- The row of the leaver is passed over, so that its own status does not matter.
pub has_other-update :
    (c id : ℕ) (ps : List CallParticipant)
    → has_other id (rows_where (is_in c) (update_where (is_participant id) gone ps))
      ≡ any (stays_on c id) ps
unfolding rows_where update_where
has_other-update c id [] = refl
has_other-update c id (p ∷ ps) = ground (arith, has_other-update c id ps)

abbrev pub without : CallParticipant → List CallParticipant → List CallParticipant
without p ps = update_where (is_participant p.id) gone ps

list_participants_ok :
    (db : Db) (c : ℕ) (ps : List CallParticipant)
    → list_participants db c ≡ ok ps
    → ps ≡ rows_where (is_in c) db.participants
unfolding list_participants
list_participants_ok db c ps h = ground arith

update_status_ok :
    (p : CallParticipant) (db : Db)
    → (update_participant_status p.id disconnected db).1 ≡ ok tt
    → (update_participant_status p.id disconnected db).0
      ≡ record db { participants = without p db.participants }
unfolding update_participant_status
update_status_ok p db h = ground arith

-- What the transaction writes, by whether the call ends.
abbrev LeftTx : Call → CallParticipant → Bool → Db → Db → Type 0
LeftTx call p auto_ended a b =
    (b.participants ≡ without p a.participants)
    × (auto_ended
        ≡ (not (any (stays_on call.id p.id) a.participants) && not (is_ended call.status)))

leave_tx_rows :
    (scope : TxScope) (call : Call) (p : CallParticipant) (u now : ℕ) (db : Db) (b : Bool)
    → (leave_tx scope call p u now db).1 ≡ ok b
    → LeftTx call p b db (leave_tx scope call p u now db).0
unfolding bind lift reading either done do_publish enqueue_realtime_tx update_participant_status
    list_participants end
leave_tx_rows scope call p u now db b h =
    let others = has_other-update call.id p.id db.participants in
    (ground (arith, others), ground (arith, others))

leave_tx_stays :
    (scope : TxScope) (call : Call) (p : CallParticipant) (u now : ℕ) (db : Db)
    → (leave_tx scope call p u now db).1 ≡ ok false
    → (leave_tx scope call p u now db).0.calls ≡ db.calls
unfolding bind lift reading either done do_publish enqueue_realtime_tx update_participant_status
    list_participants end
leave_tx_stays scope call p u now db h = ground arith

leave_tx_ends :
    (scope : TxScope) (call : Call) (p : CallParticipant) (u now : ℕ) (db : Db)
    → find_where (is_call call.id) db.calls ≡ some call
    → (leave_tx scope call p u now db).1 ≡ ok true
    → StatusOnly call.id ended db (leave_tx scope call p u now db).0
unfolding bind lift reading either done do_publish enqueue_realtime_tx update_participant_status
    list_participants end
leave_tx_ends scope call p u now db e h =
    let same : (leave_tx scope call p u now db).0.calls ≡ (end call.id now db).0.calls =
      ground arith in
    let fine : (end call.id now db).1 ≡ ok tt = ground arith in
    let ((its, others), rows) = end_lem call.id now call db e fine in
    (
      ap (status_of call.id) same ∙ its,
      λ other apart. ap (status_of other) same ∙ others other apart,
    )

leave_writes_tx :
    (s : Service) (scope : TxScope) (call : Call) (p : CallParticipant) (u now : ℕ) (db : Db)
    (b : Bool)
    → s.tx ≡ some scope
    → (leave_writes s call p u now db).1 ≡ ok b
    → ((leave_tx scope call p u now db).1 ≡ ok b)
      × ((leave_writes s call p u now db).0 ≡ (leave_tx scope call p u now db).0)
unfolding leave_writes by_tx with_error within_tx
leave_writes_tx s scope call p u now db b given h =
    elim (Result-cases (leave_tx scope call p u now db).1) [
      | inl (x, fine) ↦ (ground arith, ground arith)
      | inr (e, bad) ↦ absurd (ground arith)
    ]

pub leave_checks_sound :
    (s : Service) (db : Db) (w c u : ℕ) (call : Call) (p : CallParticipant)
    → leave_checks s db w c u ≡ ok (call, p)
    → (require_call_access s db w c u ≡ ok call) × (get_participant db c u ≡ ok p)
unfolding leave_checks
leave_checks_sound s db w c u call p h = (ground arith, ground arith)

-- What a call of `LeaveCall` that succeeds leaves behind.
abbrev pub Left : Service → ℕ → ℕ → ℕ → Db → Db → Type 0
Left s w c u a b =
    (call : Call) × (p : CallParticipant) × (require_call_access s a w c u ≡ ok call)
    × (get_participant a c u ≡ ok p)
    × (b.participants ≡ without p a.participants)
    × (status_of c b.calls
        ≡ some (if any (stays_on c p.id) a.participants then call.status else ended))
    × ((other : ℕ) → other ≢ c → status_of other b.calls ≡ status_of other a.calls)

after_leaving :
    (c now : ℕ) (b : Bool) (db : Db)
    → ((either b (closes_media c now) (done tt) db).0.calls ≡ db.calls)
      × ((either b (closes_media c now) (done tt) db).0.participants ≡ db.participants)
      × ((either b (closes_media c now) (done tt) db).1 ≡ ok tt)
unfolding either done
after_leaving c now true db =
    let ((cs, ps, _, _), fine, _) = closes_media_lem c now db in (cs, ps, fine)
after_leaving c now false db = (refl, refl, refl)

status_kept :
    (status : CallStatus) (others : Bool)
    → false ≡ (not others && not (is_ended status))
    → status ≡ (if others then status else ended)
status_kept status true h = refl
status_kept ended false h = refl
status_kept ringing false h = absurd (cc)
status_kept active false h = absurd (cc)

left_status :
    (scope : TxScope) (call : Call) (p : CallParticipant) (u now : ℕ) (db : Db) (b : Bool)
    → find_where (is_call call.id) db.calls ≡ some call
    → (leave_tx scope call p u now db).1 ≡ ok b
    → (status_of call.id (leave_tx scope call p u now db).0.calls
        ≡ some (if any (stays_on call.id p.id) db.participants then call.status else ended))
      × ((other : ℕ)
          → other ≢ call.id
          → status_of other (leave_tx scope call p u now db).0.calls ≡ status_of other db.calls)
unfolding status_of
left_status scope call p u now db true e h =
    let (its, others) = leave_tx_ends scope call p u now db e h in
    let alone = (leave_tx_rows scope call p u now db true h).1 in
    let empty : any (stays_on call.id p.id) db.participants ≡ false = ground arith in
    (rw empty its, others)
left_status scope call p u now db false e h =
    let same = leave_tx_stays scope call p u now db h in
    let kept = status_kept call.status _ (leave_tx_rows scope call p u now db false h).1 in
    (
      ap (status_of call.id) same ∙ ap status_or_none e ∙ ap (λ x. some x) kept,
      λ other apart. ap (status_of other) same,
    )

leave_call_ok :
    (s : Service) (scope : TxScope) (now w c u : ℕ) (db : Db) (call : Call) (p : CallParticipant)
    (b : Bool)
    → s.tx ≡ some scope
    → leave_checks s db w c u ≡ ok (call, p)
    → (leave_writes s call p u now db).1 ≡ ok b
    → ((leave_call s now w c u db).1 ≡ ok tt) × Left s w c u db (leave_call s now w c u db).0
unfolding leave_call reading bind
leave_call_ok s scope now w c u db call p b given checked written =
    let (access, row) = leave_checks_sound s db w c u call p checked in
    let found = require_call_access-found s db w c u call access in
    let own : call.id ≡ c =
      (nat_eqb_iff call.id c).0 (find-has call_key (is_call c) call db.calls found) in
    let here : find_where (is_call call.id) db.calls ≡ some call =
      subst (λ k. find_where (is_call k) db.calls ≡ some call) (sym own) found in
    let (in_tx, same) = leave_writes_tx s scope call p u now db b given written in
    let mid = (leave_writes s call p u now db).0 in
    let (its, others) = left_status scope call p u now db b here in_tx in
    let (cs, ps, fine) = after_leaving c now b mid in
    let calls : (either b (closes_media c now) (done tt) mid).0.calls
        ≡ (leave_tx scope call p u now db).0.calls =
      cs ∙ ap (λ d. d.calls) same in
    let whole : leave_call s now w c u db ≡ either b (closes_media c now) (done tt) mid =
      rw checked (
        continue_ok (λ x. either x (closes_media c now) (done tt)) (leave_writes s call p u now db)
          b written) in
    rw whole (
      fine,
      (
        call,
        p,
        access,
        row,
        ps ∙ ap (λ d. d.participants) same ∙ (leave_tx_rows scope call p u now db b in_tx).0,
        ap (status_of c) calls
            ∙ subst
                (λ k.
                  status_of k (leave_tx scope call p u now db).0.calls
                  ≡ some (if any (stays_on k p.id) db.participants then call.status else ended))
                own its,
        λ other apart. ap (status_of other) calls ∙ others other (λ e. apart (e ∙ own)),
      ),
    )

leave_writes_err :
    (s : Service) (scope : TxScope) (call : Call) (p : CallParticipant) (u now : ℕ) (db : Db)
    (e : GoError)
    → s.tx ≡ some scope
    → (leave_writes s call p u now db).1 ≡ err e
    → (leave_writes s call p u now db).0 ≡ db
unfolding leave_writes by_tx with_error
leave_writes_err s scope call p u now db e given h =
    elim (Result-cases (within_tx (leave_tx scope call p u now) db).1) [
      | inl (x, fine) ↦ absurd (ground arith)
      | inr (x, bad) ↦ rw given (within_tx_err (leave_tx scope call p u now) db x bad)
    ]

-- Where a transaction manager is set, `LeaveCall` either succeeds: the participant's row is disconnected, and no
-- other row changed; the call is ended if no other participant is joining or connected, and has its status as
-- before otherwise, as has every other call. Or it returns an error, and has changed nothing.
pub leave_call_sound :
    (s : Service) (scope : TxScope) (now w c u : ℕ) (db : Db)
    → s.tx ≡ some scope
    → (((leave_call s now w c u db).1 ≡ ok tt) × Left s w c u db (leave_call s now w c u db).0)
      ⊎ ((e : GoError) × (leave_call s now w c u db ≡ (db, err e)))
unfolding leave_call reading bind
leave_call_sound s scope now w c u db given = elim (Result-cases (leave_checks s db w c u)) [
  | inr (e, bad) ↦ inr (e, rw bad refl)
  | inl ((call, p), checked) ↦ elim (Result-cases (leave_writes s call p u now db).1) [
    | inl (b, written) ↦ inl (leave_call_ok s scope now w c u db call p b given checked written)
    | inr (e, bad) ↦ inr (
      e,
      rw checked (
          continue_err (λ x. either x (closes_media c now) (done tt))
            (leave_writes s call p u now db) e bad
          ∙ ap (λ d. (d, err e)) (leave_writes_err s scope call p u now db e given bad)),
    )
  ]
]
