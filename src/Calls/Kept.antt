-- ===== src/Calls/Kept.antt =====
-- What no operation of internal/service/call may lose: a call's status changes
-- only as the operation is there to change it, no two rows of
-- participants share an id, and a host who is not waiting keeps its row and its role.
use aloqa_codex.Common.{
  ℕ, Bool, true, false, not, ◌&&◌, List, ◌∷◌, Option, none, some, any, ◌≡◌, ◌⊎◌, refl, inl, inr,
  arith, nat_eqb, Bool-cases, Option-cases,
}
use aloqa_codex.Calls.Types.{
  Call, CallStatus, ringing, active, ended, CallParticipant, is_host, is_waiting,
}
use aloqa_codex.Calls.Store.{Db, is_call, find_where, update_where, delete_where}
use aloqa_codex.Calls.Participants.{is_participant}
use aloqa_codex.Calls.Rows.{Keyed, find-update, find-none, find-has, find-delete}

abbrev pub status_or_none : Option Call → Option CallStatus
status_or_none none = none
status_or_none (some c) = some c.status

-- The status of a call in the table.
unfoldable pub status_of : ℕ → List Call → Option CallStatus
unfolding find_where
status_of id cs = status_or_none (find_where (is_call id) cs)

-- What an operation is there for: to open a call, to let someone in, to leave or end it, or none of these.
pub data Cause : Type 0 where
  opening answering closing idling : Cause

-- The changes of a call's status that each may make: a call begins to ring, is answered, and ends.
abbrev pub may_change : Cause → Option CallStatus → Option CallStatus → Bool
may_change opening none (some ringing) = true
may_change answering (some ringing) (some active) = true
may_change closing (some ringing) (some ended) = true
may_change closing (some active) (some ended) = true
may_change _ _ _ = false

abbrev pub Moves : Cause → Option CallStatus → Option CallStatus → Type 0
Moves k a b = (a ≡ b) ⊎ (may_change k a b ≡ true)

-- No two changes of one kind follow each other.
Moves-trans : (k : Cause) (a b c : Option CallStatus) → Moves k a b → Moves k b c → Moves k a c
Moves-trans k a b c r s = ground (arith, r, s)

abbrev pub call_key : Call → ℕ
call_key c = c.id

abbrev pub row_key : CallParticipant → ℕ
row_key p = p.id

abbrev pub sits : Option CallParticipant → Bool
sits none = false
sits (some p) = is_host p.role && not (is_waiting p.status)

-- Whether the row of this id is that of a host who is not in the waiting room.
unfoldable pub seats_host : ℕ → List CallParticipant → Bool
unfolding find_where
seats_host id ps = sits (find_where (is_participant id) ps)

abbrev pub Advance : Cause → List Call → List Call → Type 0
Advance k cs ds = (id : ℕ) → Moves k (status_of id cs) (status_of id ds)

abbrev pub KeepsHosts : List CallParticipant → List CallParticipant → Type 0
KeepsHosts ps qs = (id : ℕ) → seats_host id ps ≡ true → seats_host id qs ≡ true

pub record Kept (k : Cause) (before after : Db) : Type 0 where
  pub calls : Advance k before.calls after.calls
  pub keyed : Keyed row_key before.participants → Keyed row_key after.participants
  pub hosts : Keyed row_key before.participants → KeepsHosts before.participants after.participants

pub Kept-refl : {k : Cause} (db : Db) → Kept k db db
Kept-refl db = record { calls = λ id. inl refl; keyed = λ k. k; hosts = λ k id h. h }

pub Kept-trans : {k : Cause} {a b c : Db} → Kept k a b → Kept k b c → Kept k a c
Kept-trans {k = k} r s = record {
  calls = λ id. Moves-trans k _ _ _ (r.calls id) (s.calls id);
  keyed = λ k. s.keyed (r.keyed k);
  hosts = λ k id h. s.hosts (r.keyed k) id (r.hosts k id h);
}

-- ---- statements on the calls

abbrev pub SameCallId : (Call → Call) → Type 0
SameCallId f = (c : Call) → (f c).id ≡ c.id

pub Advance-update :
    (k : Cause) (id : ℕ) (f : Call → Call) (cs : List Call)
    → SameCallId f
    → ((c : Call)
        → find_where (is_call id) cs ≡ some c
        → Moves k (some c.status) (some (f c).status))
    → Advance k cs (update_where (is_call id) f cs)
unfolding status_of
Advance-update k id f cs same up j = elim (Option-cases (find_where (is_call j) cs)) [
  | inl gone ↦ rw (find-update call_key (is_call id) f j cs same, gone) (inl refl)
  | inr (c, e) ↦ elim (Bool-cases (nat_eqb c.id id)) [
    | inr other ↦ rw (find-update call_key (is_call id) f j cs same, e, other) (inl refl)
    | inl hit ↦
        rw (find-update call_key (is_call id) f j cs same, e, hit)
          (up c (ground (arith, find-has call_key (is_call j) c cs e)))
  ]
]

pub Advance-insert :
    (c : Call) (cs : List Call)
    → any (is_call c.id) cs ≡ false
    → c.status ≡ ringing
    → Advance opening cs (c ∷ cs)
unfolding status_of find_where
Advance-insert c cs fresh rings j = elim (Bool-cases (nat_eqb c.id j)) [
  | inl hit ↦ rw (find-none call_key j cs (ground arith), hit, rings) (inr refl)
  | inr miss ↦ rw miss (inl refl)
]

-- ---- statements on the participants

abbrev pub SameRowId : (CallParticipant → CallParticipant) → Type 0
SameRowId f = (p : CallParticipant) → (f p).id ≡ p.id

pub KeepsHosts-update :
    (q : CallParticipant → Bool) (f : CallParticipant → CallParticipant) (ps : List CallParticipant)
    → SameRowId f
    → ((j : ℕ) (p : CallParticipant)
        → find_where (is_participant j) ps ≡ some p
        → q p ≡ true
        → sits (some p) ≡ true
        → sits (some (f p)) ≡ true)
    → KeepsHosts ps (update_where q f ps)
unfolding seats_host
KeepsHosts-update q f ps same keep j h = elim (Option-cases (find_where (is_participant j) ps)) [
  | inl gone ↦ absurd (ground arith)
  | inr (p, e) ↦ elim (Bool-cases (q p)) [
    | inr other ↦ rw (find-update row_key q f j ps same, e, other) (ground arith)
    | inl hit ↦ rw (find-update row_key q f j ps same, e, hit) (keep j p e hit (ground arith))
  ]
]

pub KeepsHosts-insert :
    (p : CallParticipant) (ps : List CallParticipant)
    → any (is_participant p.id) ps ≡ false
    → KeepsHosts ps (p ∷ ps)
unfolding seats_host find_where
KeepsHosts-insert p ps fresh j h = elim (Bool-cases (nat_eqb p.id j)) [
  | inl hit ↦ absurd (ground (arith, find-none row_key j ps (ground arith)))
  | inr miss ↦ rw miss h
]

pub KeepsHosts-delete :
    (id : ℕ) (ps : List CallParticipant)
    → seats_host id ps ≡ false
    → KeepsHosts ps (delete_where (is_participant id) ps)
unfolding seats_host
KeepsHosts-delete id ps free j h = elim (Bool-cases (nat_eqb id j)) [
  | inl hit ↦ absurd (ground arith)
  | inr miss ↦ rw (find-delete row_key id j ps, miss) h
]
