-- ===== src/Calls/Alike.antt =====
-- The branches of `LeaveCall` and `EndCall` of internal/service/call/service.go with and without a transaction
-- manager, on a database that refuses nothing.
use aloqa_codex.Common.{
  ℕ, true, not, ◌&&◌, List, [], ◌∷◌, ◌++◌, none, some, any, ◌≡◌, refl, inl, inr, arith, ap, ◌∙◌,
  if◌then◌else◌,
}
use aloqa_codex.Cerrors.{Result, err, Result-cases}
use aloqa_codex.Calls.Types.{Call, CallParticipant, is_present, is_ended}
use aloqa_codex.Calls.Store.{
  Db, Action, Statement, Event, participant_left, call_ended, is_call, end, rows_where,
  update_where, enqueue_st, begin_st, commit_st, end_st, list_participants_st,
  update_participant_status_st,
}
use aloqa_codex.Calls.Participants.{
  is_participant, is_in, update_participant_status, list_participants,
}
use aloqa_codex.Calls.Actions.{
  done, lift, with_error, within_tx, either, recovering, inspecting, bind, continue, reading,
  do_publish, enqueue_realtime_tx,
}
use aloqa_codex.Calls.Service.{
  Service, TxScope, by_tx, call_event, participant_event, require_call_access,
  get_call_for_workspace, require_workspace_member, can_access_workspace_content,
  require_channel_access, ensure_collaboration_channel_access,
}
use aloqa_codex.Calls.Leaving.{
  leave_checks, leave_writes, leave_call, end_checks, end_writes, end_call, gone, ended_call,
  closes_media,
}
use aloqa_codex.Calls.Departure.{stays_on, has_other-update, leave_checks_sound}
use aloqa_codex.Calls.Found.{require_call_access-found}
use aloqa_codex.Calls.Rows.{any-found}
use aloqa_codex.Calls.Kept.{call_key}
use aloqa_codex.Calls.Blind.{
  moved, Blind, continue-moved, continue_still, Blind-either, Blind-done, Blind-closes_media,
}

abbrev pub without_tx : Service → Service
without_tx s = record s { tx = none }

-- The leaver's own row counts for nothing: it is disconnected.
any_present-update :
    (c id : ℕ) (ps : List CallParticipant)
    → any
        (λ p. is_present p.status)
        (rows_where (is_in c) (update_where (is_participant id) gone ps))
      ≡ any (stays_on c id) ps
unfolding rows_where update_where
any_present-update c id [] = refl
any_present-update c id (p ∷ ps) = ground (arith, any_present-update c id ps)

-- Outcomes of which one has published what the other has put into the outbox, and which agree in all else.
abbrev posted : List Event → Db → Db → Db
posted news a b = moved (news ++ a.events) a.outbox b

abbrev pub Posts : {A : Type 0} → List Event → Db → Db × Result A → Db × Result A → Type 0
Posts news a direct in_tx =
    (direct ≡ (posted news a in_tx.0, in_tx.1))
    × (in_tx.0.events ≡ a.events)
    × (in_tx.0.outbox ≡ news ++ a.outbox)

abbrev pub Alike : {A : Type 0} → Db → Db × Result A → Db × Result A → Type 0
Alike a direct in_tx = (news : List Event) × Posts news a direct in_tx

-- What follows both, and neither reads nor writes events, keeps them alike.
continue-Alike :
    {A B : Type 0} (f : A → Action B) (a : Db) (direct : Db × Result A) (db : Db) (r : Result A)
    → ((x : A) → Blind (f x))
    → Alike a direct (db, r)
    → Alike a (continue f direct) (continue f (db, r))
continue-Alike f a direct db r blind (news, (same, events, outbox)) =
    let (events', outbox') = continue_still f blind db r in
    (
      news,
      (
        ap (continue f) same ∙ continue-moved f blind (news ++ a.events) a.outbox db r,
        events' ∙ events,
        outbox' ∙ outbox,
      ),
    )

leave_writes-Alike :
    (s : Service) (scope : TxScope) (call : Call) (p : CallParticipant) (u now : ℕ) (db : Db)
    → s.tx ≡ some scope
    → scope.has_calls ≡ true
    → scope.has_realtime ≡ true
    → ((st : Statement) (i : ℕ) → db.fault st i ≡ none)
    → any (is_call call.id) db.calls ≡ true
    → Alike db (leave_writes (without_tx s) call p u now db) (leave_writes s call p u now db)
unfolding leave_writes by_tx with_error within_tx bind lift reading inspecting recovering either
    done do_publish enqueue_realtime_tx update_participant_status list_participants end
leave_writes-Alike s scope call p u now db given has queue fine here =
    let direct = any_present-update call.id p.id db.participants in
    let in_tx = has_other-update call.id p.id db.participants in
    let begun = fine begin_st 0 in
    let committed = fine commit_st 0 in
    let sent = fine enqueue_st call.workspace_id in
    let written = fine update_participant_status_st p.id in
    let ended = fine end_st call.id in
    let listed = fine list_participants_st call.id in
    let left = participant_event participant_left call (gone p) in
    let news =
      if any (is_participant p.id) db.participants
      then if not (any (stays_on call.id p.id) db.participants) && not (is_ended call.status)
        then call_event call_ended (ended_call call) u ∷ left ∷ []
        else left ∷ []
      else [] in
    (
      news,
      rw given (
        ground (arith, direct, in_tx, begun, committed, sent, written, ended, listed),
        ground (arith, direct, in_tx, begun, committed, sent, written, ended, listed),
        ground (arith, direct, in_tx, begun, committed, sent, written, ended, listed),
      ),
    )

end_writes-Alike :
    (s : Service) (scope : TxScope) (call : Call) (u now : ℕ) (db : Db)
    → s.tx ≡ some scope
    → scope.has_calls ≡ true
    → scope.has_realtime ≡ true
    → ((st : Statement) (i : ℕ) → db.fault st i ≡ none)
    → Alike db (end_writes (without_tx s) call u now db) (end_writes s call u now db)
unfolding end_writes by_tx with_error within_tx bind lift do_publish enqueue_realtime_tx end
end_writes-Alike s scope call u now db given has queue fine =
    let begun = fine begin_st 0 in
    let committed = fine commit_st 0 in
    let sent = fine enqueue_st call.workspace_id in
    let ended = fine end_st call.id in
    let news =
      if any (is_call call.id) db.calls
      then call_event call_ended (ended_call call) u ∷ []
      else [] in
    (
      news,
      rw given (
        ground (arith, begun, committed, sent, ended),
        ground (arith, begun, committed, sent, ended),
        ground (arith, begun, committed, sent, ended),
      ),
    )

leave_checks_alike :
    (s : Service) (db : Db) (w c u : ℕ)
    → leave_checks (without_tx s) db w c u ≡ leave_checks s db w c u
unfolding leave_checks require_call_access get_call_for_workspace require_workspace_member
    can_access_workspace_content require_channel_access ensure_collaboration_channel_access
leave_checks_alike s db w c u = refl

end_checks_alike :
    (s : Service) (db : Db) (w c u : ℕ) → end_checks (without_tx s) db w c u ≡ end_checks s db w c u
unfolding end_checks require_call_access get_call_for_workspace require_workspace_member
    can_access_workspace_content require_channel_access ensure_collaboration_channel_access
end_checks_alike s db w c u = refl

refused-Alike : {A : Type 0} (db : Db) (r : Result A) → Alike db (db, r) (db, r)
refused-Alike db r = ([], (refl, refl, refl))

leave_call-Alike :
    (s : Service) (scope : TxScope) (now w c u : ℕ) (db : Db)
    → s.tx ≡ some scope
    → scope.has_calls ≡ true
    → scope.has_realtime ≡ true
    → ((st : Statement) (i : ℕ) → db.fault st i ≡ none)
    → Alike db (leave_call (without_tx s) now w c u db) (leave_call s now w c u db)
unfolding leave_call reading bind
leave_call-Alike s scope now w c u db given has queue fine =
    elim (Result-cases (leave_checks s db w c u)) [
      | inr (e, bad) ↦ rw (leave_checks_alike s db w c u, bad) (refused-Alike db (err e))
      | inl ((call, p), checked) ↦
          let (access, row) = leave_checks_sound s db w c u call p checked in
          let here =
            any-found call_key (is_call c) call db.calls
              (require_call_access-found s db w c u call access) in
          rw (leave_checks_alike s db w c u, checked)
            (continue-Alike (λ ends. either ends (closes_media c now) (done tt)) db
              (leave_writes (without_tx s) call p u now db) (leave_writes s call p u now db).0
              (leave_writes s call p u now db).1
              (λ ends. Blind-either ends _ _ (Blind-closes_media c now) (Blind-done tt))
              (leave_writes-Alike s scope call p u now db given has queue fine here))
    ]

end_call-Alike :
    (s : Service) (scope : TxScope) (now w c u : ℕ) (db : Db)
    → s.tx ≡ some scope
    → scope.has_calls ≡ true
    → scope.has_realtime ≡ true
    → ((st : Statement) (i : ℕ) → db.fault st i ≡ none)
    → Alike db (end_call (without_tx s) now w c u db) (end_call s now w c u db)
unfolding end_call reading bind
end_call-Alike s scope now w c u db given has queue fine =
    elim (Result-cases (end_checks s db w c u)) [
      | inr (e, bad) ↦ rw (end_checks_alike s db w c u, bad) (refused-Alike db (err e))
      | inl (call, checked) ↦
          rw (end_checks_alike s db w c u, checked)
            (continue-Alike (λ _. closes_media c now) db (end_writes (without_tx s) call u now db)
              (end_writes s call u now db).0 (end_writes s call u now db).1
              (λ _. Blind-closes_media c now)
              (end_writes-Alike s scope call u now db given has queue fine))
    ]

-- On a database that refuses no statement, `LeaveCall` and `EndCall` return the same, and write the same tables
-- and make the same calls of the SFU, whether a transaction manager with the call repository and an outbox is set
-- or none. What they publish without one, they put into the outbox with one, in the same order, and nothing else.
pub leaving-Alike :
    (s : Service) (scope : TxScope) (now w c u : ℕ) (db : Db)
    → s.tx ≡ some scope
    → scope.has_calls ≡ true
    → scope.has_realtime ≡ true
    → ((st : Statement) (i : ℕ) → db.fault st i ≡ none)
    → Alike db (leave_call (without_tx s) now w c u db) (leave_call s now w c u db)
      × Alike db (end_call (without_tx s) now w c u db) (end_call s now w c u db)
leaving-Alike s scope now w c u db given has queue fine = (
  leave_call-Alike s scope now w c u db given has queue fine,
  end_call-Alike s scope now w c u db given has queue fine,
)
