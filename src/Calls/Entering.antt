-- ===== src/Calls/Entering.antt =====
-- What `JoinCall` of internal/service/call/service.go does for a user who has a row in the call.
use aloqa_codex.Common.{
  ℕ, Bool, true, false, List, [], ◌∷◌, Option, none, some, any, ◌≡◌, refl, inl, inr, arith,
  nat_eqb_iff, Bool-cases, Option-cases, ap, subst, ◌∙◌,
}
use aloqa_codex.Cerrors.{ok}
use aloqa_codex.Calls.Types.{Call, CallParticipant, connected, is_ended}
use aloqa_codex.Calls.Store.{
  Db, Statement, find_where, update_where, update_participant_status_st, enqueue_st, begin_st,
  commit_st, get_participant_st,
}
use aloqa_codex.Calls.Participants.{
  is_participant, is_user_in, get_participant, update_participant_status,
}
use aloqa_codex.Calls.Actions.{
  done, lift, with_error, within_tx, bind, reading, do_publish, enqueue_realtime_tx,
}
use aloqa_codex.Calls.Service.{Service, TxScope, by_tx, require_call_access}
use aloqa_codex.Calls.Joining.{join_checks, rejoin, join_call}
use aloqa_codex.Calls.Rows.{find-update_unread}
use aloqa_codex.Calls.Kept.{row_key}

-- ---- who has a row

join_checks_existing :
    (s : Service) (db : Db) (w c u : ℕ) (call : Call) (p : CallParticipant)
    → require_call_access s db w c u ≡ ok call
    → is_ended call.status ≡ false
    → get_participant db c u ≡ ok p
    → join_checks s db w c u ≡ ok (call, some p)
unfolding join_checks
join_checks_existing s db w c u call p access open_ row = ground arith

abbrev pub back : CallParticipant → ℕ → CallParticipant
back p now = record p { status = connected; joined_at = some now }

abbrev pub HasScope : Option TxScope → Type 0
HasScope none = Unit {0}
HasScope (some scope) = scope.has_calls ≡ true

rejoin_lem :
    (s : Service) (call : Call) (p : CallParticipant) (now : ℕ) (db : Db)
    → HasScope s.tx
    → ((st : Statement) (i : ℕ) → db.fault st i ≡ none)
    → any (is_participant p.id) db.participants ≡ true
    → ((rejoin s call p now db).1 ≡ ok (back p now))
      × ((rejoin s call p now db).0.participants
          ≡ update_where
              (is_participant p.id)
              (λ q. record q { status = connected })
              db.participants)
unfolding rejoin by_tx bind with_error within_tx lift done do_publish enqueue_realtime_tx
    update_participant_status
rejoin_lem s call p now db scoped fine here = elim (Option-cases s.tx) [
  | inl direct ↦
      let written = fine update_participant_status_st p.id in
      rw direct (ground (arith, written), ground (arith, written))
  | inr (scope, given) ↦
      let has : scope.has_calls ≡ true = subst HasScope given scoped in
      let begun = fine begin_st 0 in
      let committed = fine commit_st 0 in
      let written = fine update_participant_status_st p.id in
      let sent = fine enqueue_st call.workspace_id in
      rw given (
        ground (arith, begun, committed, written, sent),
        ground (arith, begun, committed, written, sent),
      )
]

get_participant_ok :
    (db : Db) (c u : ℕ) (p : CallParticipant)
    → db.fault get_participant_st u ≡ none
    → find_where (is_user_in c u) db.participants ≡ some p
    → get_participant db c u ≡ ok p
unfolding get_participant
get_participant_ok db c u p fine row = ground arith

any-found_row :
    (q : CallParticipant → Bool) (p : CallParticipant) (ps : List CallParticipant)
    → find_where q ps ≡ some p
    → any (is_participant p.id) ps ≡ true
unfolding find_where
any-found_row q p [] h = absurd (cc)
any-found_row q p (x ∷ xs) h = elim (Bool-cases (q x)) [
  | inl hit ↦ ground arith
  | inr miss ↦ ground (arith, any-found_row q p xs (rw miss at h))
]

-- `JoinCall` connects whoever has access to a call that has not ended and has a row in it, whatever the row's
-- status, also waiting, and whatever the call's settings and capacity, as long as the database refuses no
-- statement. So a user in the waiting room comes in by joining again, with no host's consent.
pub join_call_readmits :
    (s : Service) (id now w c u : ℕ) (db : Db) (call : Call) (p : CallParticipant)
    → HasScope s.tx
    → ((st : Statement) (i : ℕ) → db.fault st i ≡ none)
    → require_call_access s db w c u ≡ ok call
    → is_ended call.status ≡ false
    → find_where (is_user_in c u) db.participants ≡ some p
    → ((join_call s id now w c u db).1 ≡ ok (back p now))
      × (find_where (is_user_in c u) (join_call s id now w c u db).0.participants
          ≡ some (record p { status = connected }))
unfolding join_call reading
join_call_readmits s id now w c u db call p scoped fine access open_ row =
    let read : get_participant db c u ≡ ok p = get_participant_ok db c u p (fine _ _) row in
    let checked = join_checks_existing s db w c u call p access open_ read in
    let (joined, rows) =
      rejoin_lem s call p now db scoped fine
        (any-found_row (is_user_in c u) p db.participants row) in
    let own : is_participant p.id p ≡ true = (nat_eqb_iff p.id p.id).1 refl in
    rw checked (
      joined,
      ap (find_where (is_user_in c u)) rows
          ∙ find-update_unread row_key (is_user_in c u) (is_participant p.id) _ db.participants
              (λ q. refl)
          ∙ rw (row, own) refl,
    )
