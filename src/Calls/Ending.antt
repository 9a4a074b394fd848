-- ===== src/Calls/Ending.antt =====
-- What `EndCall` of internal/service/call/service.go does to a call and to its media.
use aloqa_codex.Common.{
  ℕ, true, false, List, ◌∷◌, Option, none, some, if◌then◌else◌, ◌≡◌, ◌⊎◌, refl, inl, inr, arith,
  nat_eqb_iff, sym, ap, subst, ◌∙◌,
}
use aloqa_codex.Cerrors.{GoError, ok, err, Result-cases}
use aloqa_codex.Calls.Types.{Call, ended, CallParticipant, is_ended, is_moderator}
use aloqa_codex.Calls.Store.{
  Db, Event, SfuCall, call_ended, close_room, main_room, is_call, end, find_where,
}
use aloqa_codex.Calls.Participants.{get_participant}
use aloqa_codex.Calls.Actions.{
  lift, with_error, within_tx, bind, reading, do_publish, enqueue_realtime_tx,
}
use aloqa_codex.Calls.Service.{Service, TxScope, by_tx, require_call_access, call_event}
use aloqa_codex.Calls.Leaving.{closes_media, end_checks, end_writes, end_call, ended_call}
use aloqa_codex.Calls.Found.{require_call_access-found}
use aloqa_codex.Calls.Closing.{StatusOnly, closes_media_lem, end_lem}
use aloqa_codex.Calls.Rows.{find-has}
use aloqa_codex.Calls.Keeping.{continue_ok, continue_err}
use aloqa_codex.Calls.Kept.{call_key, status_of}

-- ---- EndCall

end_events :
    (id now : ℕ) (db : Db)
    → ((end id now db).0.events ≡ db.events) × ((end id now db).0.outbox ≡ db.outbox)
unfolding end
end_events id now db = (ground arith, ground arith)

end_refused :
    (id now : ℕ) (db : Db) (e : GoError) → (end id now db).1 ≡ err e → (end id now db).0 ≡ db
unfolding end
end_refused id now db e h = ground arith

-- An event is published where no transaction manager is set, and a row of the outbox where one is.
abbrev published : Option TxScope → Event → List Event → List Event
published none event events = event ∷ events
published (some scope) event events = events

abbrev enqueued : Option TxScope → Event → List Event → List Event
enqueued none event outbox = outbox
enqueued (some scope) event outbox = if scope.has_realtime then event ∷ outbox else outbox

abbrev pub Announces : Option TxScope → Event → Db → Db → Type 0
Announces tx event a b =
    (b.events ≡ published tx event a.events) × (b.outbox ≡ enqueued tx event a.outbox)

-- What ending a call writes: all or, with an error, nothing.
abbrev EndsCall : Option TxScope → Call → ℕ → Db → Db → Type 0
EndsCall tx call u a b =
    StatusOnly call.id ended a b
    × (b.participants ≡ a.participants)
    × Announces tx (call_event call_ended (ended_call call) u) a b

end_writes_ok :
    (s : Service) (call : Call) (u now : ℕ) (db : Db)
    → find_where (is_call call.id) db.calls ≡ some call
    → (end_writes s call u now db).1 ≡ ok tt
    → EndsCall s.tx call u db (end_writes s call u now db).0
unfolding end_writes by_tx bind with_error within_tx lift do_publish enqueue_realtime_tx
end_writes_ok s call u now db e h = elim (Result-cases (end call.id now db).1) [
  | inr (x, bad) ↦ absurd (ground arith)
  | inl (_, fine) ↦
      let ((its, others), rows) = end_lem call.id now call db e fine in
      (
        (ground arith, λ other apart. ground (arith, others other apart)),
        ground arith,
        (ground (arith, end_events call.id now db), ground (arith, end_events call.id now db)),
      )
]

end_writes_err :
    (s : Service) (call : Call) (u now : ℕ) (db : Db) (e : GoError)
    → (end_writes s call u now db).1 ≡ err e
    → (end_writes s call u now db).0 ≡ db
unfolding end_writes by_tx bind with_error within_tx lift do_publish enqueue_realtime_tx
end_writes_err s call u now db e h = elim (Result-cases (end call.id now db).1) [
  | inl (_, fine) ↦ ground arith
  | inr (x, bad) ↦ ground (arith, end_refused call.id now db x)
]

end_checks_sound :
    (s : Service) (db : Db) (w c u : ℕ) (call : Call)
    → end_checks s db w c u ≡ ok call
    → (require_call_access s db w c u ≡ ok call)
      × (is_ended call.status ≡ false)
      × ((p : CallParticipant) × (get_participant db c u ≡ ok p) × (is_moderator p.role ≡ true))
unfolding end_checks
end_checks_sound s db w c u call h = elim (Result-cases (get_participant db c u)) [
  | inr (e, bad) ↦ absurd (ground arith)
  | inl (p, row) ↦ (ground arith, ground arith, (p, ground arith, ground arith))
]

-- What a call of `EndCall` that succeeds was allowed by, and what it leaves behind.
abbrev pub Ended : Service → ℕ → ℕ → ℕ → Db → Db → Type 0
Ended s w c u a b =
    (call : Call) × (p : CallParticipant) × (require_call_access s a w c u ≡ ok call)
    × (is_ended call.status ≡ false)
    × (get_participant a c u ≡ ok p)
    × (is_moderator p.role ≡ true)
    × StatusOnly c ended a b
    × (b.participants ≡ a.participants)
    × Announces s.tx (call_event call_ended (ended_call call) u) a b
    × ((before : List SfuCall) × (b.sfu_calls ≡ close_room (main_room c) ∷ before))

end_call_ok :
    (s : Service) (now w c u : ℕ) (db : Db) (call : Call)
    → end_checks s db w c u ≡ ok call
    → (end_writes s call u now db).1 ≡ ok tt
    → ((end_call s now w c u db).1 ≡ ok tt) × Ended s w c u db (end_call s now w c u db).0
unfolding end_call reading bind
end_call_ok s now w c u db call checked written =
    let (access, open_, (p, row, power)) = end_checks_sound s db w c u call checked in
    let found = require_call_access-found s db w c u call access in
    let own : call.id ≡ c =
      (nat_eqb_iff call.id c).0 (find-has call_key (is_call c) call db.calls found) in
    let here : find_where (is_call call.id) db.calls ≡ some call =
      subst (λ k. find_where (is_call k) db.calls ≡ some call) (sym own) found in
    let ((its, others), rows, (events, outbox)) = end_writes_ok s call u now db here written in
    let mid = (end_writes s call u now db).0 in
    let ((cs, ps, es, os), fine, (before, closed)) = closes_media_lem c now mid in
    let whole : end_call s now w c u db ≡ closes_media c now mid =
      rw checked (continue_ok (λ _. closes_media c now) (end_writes s call u now db) tt written) in
    rw whole (
      fine,
      (
        call,
        p,
        access,
        open_,
        row,
        power,
        (
          ap (status_of c) cs ∙ subst (λ k. status_of k mid.calls ≡ some ended) own its,
          λ other apart. ap (status_of other) cs ∙ others other (λ e. apart (e ∙ own)),
        ),
        ps ∙ rows,
        (es ∙ events, os ∙ outbox),
        (before, closed),
      ),
    )

-- `EndCall` either succeeds, and then the user had access to a call that had not ended, as a host or co-host of it;
-- the call is ended and no other call's status changed, the participants are as they were, the end is
-- published where no transaction manager is set, and put into the outbox where one is that has an outbox, and the call's room is closed in the SFU. Or it returns an error, and has changed nothing.
pub end_call_sound :
    (s : Service) (now w c u : ℕ) (db : Db)
    → (((end_call s now w c u db).1 ≡ ok tt) × Ended s w c u db (end_call s now w c u db).0)
      ⊎ ((e : GoError) × (end_call s now w c u db ≡ (db, err e)))
unfolding end_call reading bind
end_call_sound s now w c u db = elim (Result-cases (end_checks s db w c u)) [
  | inr (e, bad) ↦ inr (e, rw bad refl)
  | inl (call, checked) ↦ elim (Result-cases (end_writes s call u now db).1) [
    | inl (_, written) ↦ inl (end_call_ok s now w c u db call checked written)
    | inr (e, bad) ↦ inr (
      e,
      rw checked (
          continue_err (λ _. closes_media c now) (end_writes s call u now db) e bad
          ∙ ap (λ d. (d, err e)) (end_writes_err s call u now db e bad)),
    )
  ]
]
