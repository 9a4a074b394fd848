-- ===== src/Calls/Writes.antt =====
-- What the statements on calls keep, in internal/repository/postgres/call.go.
use aloqa_codex.Common.{
  ℕ, String, Bool, true, false, List, some, any, ◌≡◌, refl, inl, inr, arith, if◌then◌else◌,
  Option-cases, subst, sym, ◌∙◌, nat_eqb_iff,
}
use aloqa_codex.Cerrors.{Result}
use aloqa_codex.Calls.Types.{
  Call, CallStatus, ringing, active, ended, CallSettings, CallParticipant,
}
use aloqa_codex.Calls.Store.{
  Db, Statement, exec, is_call, find_where, update_where, create_call, update_settings,
  update_status, end, update_call,
}
use aloqa_codex.Calls.Participants.{is_participant}
use aloqa_codex.Calls.Rows.{update-Keyed, find-has}
use aloqa_codex.Calls.Kept.{
  Cause, opening, closing, Moves, Kept, Kept-refl, status_of, row_key, Advance, Advance-update,
  Advance-insert, KeepsHosts-update, SameRowId, SameCallId, sits, status_or_none,
}

pub exec_at :
    (Q : Db → Type 0) (db : Db) (st : Statement) (id : ℕ) (message : String)
    (outcome : Db × Result (Unit {0}))
    → Q db
    → Q outcome.0
    → Q (exec db st id message outcome).0
exec_at Q db st id message outcome old new = elim (Option-cases (db.fault st id)) [
  | inl fine ↦ rw (fine, exec) new
  | inr (e, broken) ↦ rw (broken, exec) old
]

pub if_at :
    (Q : Db → Type 0) (b : Bool) (x y : Db × Result (Unit {0}))
    → (b ≡ true → Q x.0)
    → (b ≡ false → Q y.0)
    → Q (if b then x else y).0
if_at Q true x y qx qy = qx refl
if_at Q false x y qx qy = qy refl

-- ---- the tables as they are written

abbrev with_calls : Db → List Call → Db
with_calls db cs = record db { calls = cs }

abbrev pub with_rows : Db → List CallParticipant → Db
with_rows db ps = record db { participants = ps }

calls-Kept :
    (k : Cause) (db : Db) (cs : List Call) → Advance k db.calls cs → Kept k db (with_calls db cs)
calls-Kept _ db cs up = record { calls = up; keyed = λ k. k; hosts = λ k j h. h }

abbrev StaysSeated : (CallParticipant → CallParticipant) → Type 0
StaysSeated f = (p : CallParticipant) → sits (some p) ≡ true → sits (some (f p)) ≡ true

pub rows-Kept :
    {k : Cause} (q : CallParticipant → Bool) (f : CallParticipant → CallParticipant) (db : Db)
    → SameRowId f
    → StaysSeated f
    → Kept k db (with_rows db (update_where q f db.participants))
rows-Kept q f db same stays = record {
  calls = λ j. inl refl;
  keyed = λ k. update-Keyed row_key q f db.participants same k;
  hosts = λ k. KeepsHosts-update q f db.participants same (λ j p e hit h. stays p h);
}

-- The row of an id that a host sits on.
pub role_clash :
    (id j : ℕ) (p : CallParticipant) (ps : List CallParticipant)
    → find_where (is_participant j) ps ≡ some p
    → is_participant id p ≡ true
    → sits (some p) ≡ true
    → sits (find_where (is_participant id) ps) ≡ false
    → ⊥
role_clash id j p ps e hit h free =
    let own : p.id ≡ j = (nat_eqb_iff p.id j).0 (find-has row_key (is_participant j) p ps e) in
    let same : p.id ≡ id = (nat_eqb_iff p.id id).0 hit in
    let here : find_where (is_participant id) ps ≡ some p =
      subst (λ k. find_where (is_participant k) ps ≡ some p) (sym own ∙ same) e in
    ground (arith, here)

-- ---- calls

update_call-Kept :
    {k : Cause} (st : Statement) (message : String) (id : ℕ) (f : Call → Call) (db : Db)
    → SameCallId f
    → ((c : Call)
        → find_where (is_call id) db.calls ≡ some c
        → Moves k (some c.status) (some (f c).status))
    → Kept k db (update_call st message id f db).0
update_call-Kept st message id f db same up = exec_at (Kept _ db) db _ _ _ _ (Kept-refl db) (
    if_at (Kept _ db) (any (is_call id) db.calls) _ _
      (λ _. calls-Kept _ db _ (Advance-update _ id f db.calls same up)) (λ _. Kept-refl db))

pub update_settings-Kept :
    {k : Cause} (id : ℕ) (settings : CallSettings) (db : Db)
    → Kept k db (update_settings id settings db).0
unfolding update_settings
update_settings-Kept id settings db = update_call-Kept _ _ id _ db (λ c. refl) (λ c _. inl refl)

-- A status is written only where the operation may do so.
pub update_status-Kept :
    {k : Cause} (id : ℕ) (status : CallStatus) (db : Db)
    → Moves k (status_of id db.calls) (some status)
    → Kept k db (update_status id status db).0
unfolding update_status status_of
update_status-Kept {k = k} id status db up =
    update_call-Kept _ _ id _ db (λ c. refl)
      (λ c e. subst (λ o. Moves k (status_or_none o) (some status)) e up)

Moves-ended : (s : CallStatus) → Moves closing (some s) (some ended)
Moves-ended ringing = inr refl
Moves-ended active = inr refl
Moves-ended ended = inl refl

pub end-Kept : (id now : ℕ) (db : Db) → Kept closing db (end id now db).0
unfolding end
end-Kept id now db = update_call-Kept _ _ id _ db (λ c. refl) (λ c _. Moves-ended c.status)

pub create_call-Kept :
    (c : Call) (db : Db) → c.status ≡ ringing → Kept opening db (create_call c db).0
unfolding create_call
create_call-Kept c db rings = exec_at (Kept _ db) db _ _ _ _ (Kept-refl db) (
    if_at (Kept _ db) (any (is_call c.id) db.calls) _ _ (λ _. Kept-refl db)
      (λ fresh. calls-Kept _ db _ (Advance-insert c db.calls fresh rings)))
