-- ===== src/Calls/Newcomers.antt =====
-- What `JoinCall` of internal/service/call/service.go asks of a user who has no row in the call.
use aloqa_codex.Common.{
  ℕ, suc, ◌≤◌, Bool, true, false, List, [], ◌∷◌, Option, none, some, ◌≡◌, ◌⊎◌, refl, inl, inr,
  arith, nat_eqb_iff, Bool-cases, Option-cases, sym, ap, subst, ◌∙◌,
}
use aloqa_codex.Common.Int.{ℤ, pos, ltb_ℤ, leb_ℤ, ◌≤ℤ◌}
use aloqa_codex.Cerrors.{ok, Result-cases}
use aloqa_codex.Calls.Types.{Call, CallParticipant, is_ended, is_present}
use aloqa_codex.Calls.Store.{Db, is_call, update_status, find_where, rows_where}
use aloqa_codex.Calls.Participants.{
  is_in, is_user_in, is_present_in, count_where, get_participant, add_participant,
  add_participant_if_capacity, list_participants, participant_row, normalize_participant_principal,
}
use aloqa_codex.Calls.Actions.{
  done, lift, with_error, within_tx, either, logged, bind, reading, do_publish, enqueue_realtime_tx,
}
use aloqa_codex.Calls.Service.{Service, TxScope, by_tx, require_call_access}
use aloqa_codex.Calls.Capacity.{effective_participant_cap}
use aloqa_codex.Calls.Starting.{add_participant_with_optional_capacity}
use aloqa_codex.Calls.Joining.{
  join_checks, join_direct, join_tx, admission_checks, joining_row, join_writes, join_new,
  join_or_rejoin, join_call,
}
use aloqa_codex.Calls.Found.{require_call_access-found}
use aloqa_codex.Calls.Rows.{find-has}
use aloqa_codex.Calls.Keeping.{continue_ok}
use aloqa_codex.Calls.Kept.{call_key}

count-present :
    (c : ℕ) (ps : List CallParticipant)
    → count_where (λ p. is_present p.status) (rows_where (is_in c) ps)
      ≡ count_where (is_present_in c) ps
unfolding rows_where
count-present c [] = refl
count-present c (p ∷ ps) = ground (arith, count-present c ps)

abbrev pub stored : CallParticipant → CallParticipant
stored p = participant_row (normalize_participant_principal p)

add_with_capacity_rows :
    (p : CallParticipant) (capacity : ℤ) (db : Db)
    → (add_participant_with_optional_capacity p capacity db).1 ≡ ok tt
    → (add_participant_with_optional_capacity p capacity db).0.participants
      ≡ stored p ∷ db.participants
unfolding add_participant_with_optional_capacity add_participant add_participant_if_capacity either
    with_error
add_with_capacity_rows p capacity db h = ground arith

add_rows :
    (p : CallParticipant) (db : Db)
    → (add_participant p db).1 ≡ ok tt
    → (add_participant p db).0.participants ≡ stored p ∷ db.participants
unfolding add_participant
add_rows p db h = ground arith

join_direct_rows :
    (call : Call) (p : CallParticipant) (capacity : ℤ) (db : Db)
    → (join_direct call p capacity db).1 ≡ ok tt
    → (join_direct call p capacity db).0.participants ≡ stored p ∷ db.participants
unfolding bind with_error either logged done do_publish update_status
join_direct_rows call p capacity db h =
    elim (Result-cases (add_participant_with_optional_capacity p capacity db).1) [
      | inr (e, bad) ↦ absurd (ground arith)
      | inl (_, fine) ↦ ground (arith, add_with_capacity_rows p capacity db fine)
    ]

join_tx_rows :
    (scope : TxScope) (call : Call) (p : CallParticipant) (db : Db)
    → (join_tx scope call p db).1 ≡ ok tt
    → (join_tx scope call p db).0.participants ≡ stored p ∷ db.participants
unfolding bind lift either done do_publish enqueue_realtime_tx update_status
join_tx_rows scope call p db h = elim (Result-cases (add_participant p db).1) [
  | inr (e, bad) ↦ absurd (ground arith)
  | inl (_, fine) ↦ ground (arith, add_rows p db fine)
]

join_writes_rows :
    (s : Service) (call : Call) (p : CallParticipant) (db : Db)
    → (join_writes s call p db).1 ≡ ok tt
    → (join_writes s call p db).0.participants ≡ stored p ∷ db.participants
unfolding join_writes by_tx with_error within_tx
join_writes_rows s call p db h = elim (Option-cases s.tx) [
  | inl direct ↦ rw direct (join_direct_rows call p _ db (rw direct at h))
  | inr (scope, given) ↦ elim (Result-cases (join_tx scope call p db).1) [
    | inr (e, bad) ↦ absurd (ground arith)
    | inl (_, fine) ↦ rw given (ground (arith, join_tx_rows scope call p db fine))
  ]
]

admission_checks_sound :
    (s : Service) (db : Db) (call : Call)
    → admission_checks s db call ≡ ok tt
    → (call.settings.locked ≡ false)
      × ((leb_ℤ (effective_participant_cap s call) (pos 0) ≡ true)
          ⊎ (leb_ℤ
                (effective_participant_cap s call)
                (pos (count_where (is_present_in call.id) db.participants))
              ≡ false))
unfolding admission_checks list_participants
admission_checks_sound s db call h = (
  ground arith,
  elim (Bool-cases (ltb_ℤ (pos 0) (effective_participant_cap s call))) [
    | inr unlimited ↦ inl (ground arith)
    | inl limited ↦ inr (ground (arith, count-present call.id db.participants))
  ],
)

count-insert :
    (f : CallParticipant → Bool) (p : CallParticipant) (ps : List CallParticipant)
    → count_where f (p ∷ ps) ≤ suc (count_where f ps)
unfolding rows_where
count-insert f p ps = ground arith

join_checks_sound :
    (s : Service) (db : Db) (w c u : ℕ) (call : Call) (existing : Option CallParticipant)
    → join_checks s db w c u ≡ ok (call, existing)
    → (require_call_access s db w c u ≡ ok call) × (is_ended call.status ≡ false)
unfolding join_checks
join_checks_sound s db w c u call existing h = (ground arith, ground arith)

join_checks-some :
    (s : Service) (db : Db) (w c u : ℕ) (call : Call) (p : CallParticipant)
    → join_checks s db w c u ≡ ok (call, some p)
    → find_where (is_user_in c u) db.participants ≡ some p
unfolding join_checks get_participant
join_checks-some s db w c u call p h = ground arith

-- The call has no limit, or holds no more participants than it.
abbrev pub Fits : ℤ → ℕ → Type 0
Fits capacity n = (capacity ≤ℤ pos 0) ⊎ (pos n ≤ℤ capacity)

-- What a user who joins for the first time finds, and leaves behind.
abbrev pub Joined : Service → ℕ → ℕ → ℕ → ℕ → ℕ → CallParticipant → Db → Db → Type 0
Joined s id now w c u q a b =
    (call : Call) × (require_call_access s a w c u ≡ ok call)
    × (is_ended call.status ≡ false)
    × (call.settings.locked ≡ false)
    × (q ≡ normalize_participant_principal (joining_row call id u now))
    × (b.participants ≡ stored (joining_row call id u now) ∷ a.participants)
    × Fits (effective_participant_cap s call) (count_where (is_present_in c) b.participants)

Fits-insert :
    (capacity : ℤ) (c : ℕ) (p : CallParticipant) (ps qs : List CallParticipant)
    → qs ≡ p ∷ ps
    → ((leb_ℤ capacity (pos 0) ≡ true)
        ⊎ (leb_ℤ capacity (pos (count_where (is_present_in c) ps)) ≡ false))
    → Fits capacity (count_where (is_present_in c) qs)
Fits-insert capacity c p ps qs e room = elim room [
  | inl unlimited ↦ inl (ground arith)
  | inr free ↦ inr (rw e (ground (arith, count-insert (is_present_in c) p ps)))
]

ok_inj {ℓ} : {A : Type ℓ} {a b : A} → ok a ≡ ok b → b ≡ a
ok_inj h = cc

join_new_ok :
    (s : Service) (call : Call) (id now w c u : ℕ) (db : Db) (q : CallParticipant)
    → require_call_access s db w c u ≡ ok call
    → is_ended call.status ≡ false
    → (join_new s call id now u db).1 ≡ ok q
    → Joined s id now w c u q db (join_new s call id now u db).0
unfolding join_new reading bind done
join_new_ok s call id now w c u db q access open_ h =
    let p = joining_row call id u now in
    let found = require_call_access-found s db w c u call access in
    let own : call.id ≡ c =
      (nat_eqb_iff call.id c).0 (find-has call_key (is_call c) call db.calls found) in
    elim (Result-cases (admission_checks s db call)) [
      | inr (e, bad) ↦ absurd (ground arith)
      | inl (_, admitted) ↦ elim (Result-cases (join_writes s call p db).1) [
        | inr (e, bad) ↦ absurd (ground arith)
        | inl (_, written) ↦
            let (unlocked, room) = admission_checks_sound s db call admitted in
            let rows = join_writes_rows s call p db written in
            let whole : join_new s call id now u db
                ≡ ((join_writes s call p db).0, ok (normalize_participant_principal p)) =
              rw admitted (
                continue_ok (λ _. done (normalize_participant_principal p))
                  (join_writes s call p db) tt written) in
            (
              call,
              access,
              open_,
              unlocked,
              ok_inj (sym (ap (λ o. o.1) whole) ∙ h),
              ap (λ o. o.0.participants) whole ∙ rows,
              Fits-insert (effective_participant_cap s call) c (stored p) db.participants _
                  (ap (λ o. o.0.participants) whole ∙ rows)
                  (subst
                    (λ k.
                      (leb_ℤ (effective_participant_cap s call) (pos 0) ≡ true)
                      ⊎ (leb_ℤ (effective_participant_cap s call)
                            (pos (count_where (is_present_in k) db.participants))
                          ≡ false))
                    own room),
            )
      ]
    ]

join_or_rejoin_ok :
    (s : Service) (call : Call) (existing : Option CallParticipant) (id now w c u : ℕ) (db : Db)
    (q : CallParticipant)
    → join_checks s db w c u ≡ ok (call, existing)
    → find_where (is_user_in c u) db.participants ≡ none
    → (join_or_rejoin s call existing id now u db).1 ≡ ok q
    → Joined s id now w c u q db (join_or_rejoin s call existing id now u db).0
join_or_rejoin_ok s call (some p) id now w c u db q checked absent h =
    absurd (cc (join_checks-some s db w c u call p checked))
join_or_rejoin_ok s call none id now w c u db q checked absent h =
    let (access, open_) = join_checks_sound s db w c u call none checked in
    join_new_ok s call id now w c u db q access open_ h

-- A user without a row joins only a call that they have access to, that has not ended and that is not locked. The
-- new row, with the status that the waiting room asks for, is the only change to the participants, and the
-- call then holds no more joining and connected participants than its cap, where it has one.
pub join_call_bounded :
    (s : Service) (id now w c u : ℕ) (db : Db) (q : CallParticipant)
    → find_where (is_user_in c u) db.participants ≡ none
    → (join_call s id now w c u db).1 ≡ ok q
    → Joined s id now w c u q db (join_call s id now w c u db).0
unfolding join_call reading
join_call_bounded s id now w c u db q absent h = elim (Result-cases (join_checks s db w c u)) [
  | inr (e, bad) ↦ absurd (ground arith)
  | inl ((call, existing), checked) ↦
      rw checked
        (join_or_rejoin_ok s call existing id now w c u db q checked absent (rw checked at h))
]
