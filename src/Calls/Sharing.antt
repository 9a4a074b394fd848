-- ===== src/Calls/Sharing.antt =====
-- How many screens `UpdateMedia` of internal/service/call/service.go lets a call share at once.
use aloqa_codex.Common.{
  ℕ, suc, ◌≤◌, Bool, false, not, ◌&&◌, List, [], ◌∷◌, some, any, ◌≡◌, ◌⊎◌, refl, inl, inr, arith,
  nat_eqb, nat_eqb_iff, Bool-cases, Option-cases, subst,
}
use aloqa_codex.Common.Int.{pos, ◌≤ℤ◌}
use aloqa_codex.Cerrors.{ok, Result-cases}
use aloqa_codex.Calls.Types.{Call, CallParticipant, is_connected}
use aloqa_codex.Calls.Store.{Db, update_where, rows_where, find_where}
use aloqa_codex.Calls.Participants.{
  is_participant, is_in, is_user_in, get_participant, list_participants, update_participant_media,
  count_where,
}
use aloqa_codex.Calls.Actions.{reading, bind, with_error, do_publish}
use aloqa_codex.Calls.Service.{Service}
use aloqa_codex.Calls.Hosting.{
  MediaPatch, overlaid, media_checks, check_screen_share_capacity, screen_share_limit,
  is_other_share, is_on, share_check, writes_media, update_media,
}
use aloqa_codex.Calls.Rows.{Keyed, find-own}
use aloqa_codex.Calls.Kept.{row_key}

-- A screen that is shared in the call.
abbrev pub shares_in : ℕ → CallParticipant → Bool
shares_in c p = nat_eqb p.call_id c && p.screen_sharing && is_connected p.status

abbrev pub shares : ℕ → List CallParticipant → ℕ
shares c ps = count_where (shares_in c) ps

-- The row with its controls set.
abbrev set_media : CallParticipant → CallParticipant → CallParticipant
set_media p q = record q {
  audio_muted = p.audio_muted;
  video_muted = p.video_muted;
  screen_sharing = p.screen_sharing;
}

shares_apart :
    (c id : ℕ) (p : CallParticipant) (ps : List CallParticipant)
    → any (is_participant id) ps ≡ false
    → (shares c (update_where (is_participant id) (set_media p) ps)
        ≡ count_where (is_other_share id) (rows_where (is_in c) ps))
      × (shares c (update_where (is_participant id) (set_media p) ps) ≡ shares c ps)
unfolding rows_where update_where
shares_apart c id p [] h = (refl, refl)
shares_apart c id p (q ∷ qs) h =
    (ground (arith, shares_apart c id p qs), ground (arith, shares_apart c id p qs))

-- Only one row has the id, so the change adds at most one screen to those of the others.
shares-update :
    (c id : ℕ) (p : CallParticipant) (ps : List CallParticipant)
    → Keyed row_key ps
    → shares c (update_where (is_participant id) (set_media p) ps)
      ≤ suc (count_where (is_other_share id) (rows_where (is_in c) ps))
unfolding rows_where update_where
shares-update c id p [] k = omega arith
shares-update c id p (q ∷ qs) (fresh, k) = elim (Bool-cases (is_participant id q)) [
  | inl hit ↦
      let same : q.id ≡ id = (nat_eqb_iff q.id id).0 hit in
      let apart =
        shares_apart c id p qs (subst (λ j. any (is_participant j) qs ≡ false) same fresh) in
      ground (arith, apart.0)
  | inr miss ↦ ground (arith, shares-update c id p qs k)
]

-- A change of the row that starts no screen adds none.
shares-quiet :
    (c id : ℕ) (p row : CallParticipant) (ps : List CallParticipant)
    → Keyed row_key ps
    → find_where (is_participant id) ps ≡ some row
    → (p.screen_sharing && not row.screen_sharing) ≡ false
    → shares c (update_where (is_participant id) (set_media p) ps) ≤ shares c ps
unfolding rows_where update_where find_where
shares-quiet c id p row [] k h quiet = omega arith
shares-quiet c id p row (q ∷ qs) (fresh, k) h quiet = elim (Bool-cases (is_participant id q)) [
  | inl hit ↦
      let same : q.id ≡ id = (nat_eqb_iff q.id id).0 hit in
      let its : q ≡ row = ground arith in
      let apart =
        shares_apart c id p qs (subst (λ j. any (is_participant j) qs ≡ false) same fresh) in
      let still : (p.screen_sharing && not q.screen_sharing) ≡ false = rw its quiet in
      ground (arith, apart.1, still)
  | inr miss ↦ ground (arith, shares-quiet c id p row qs k (rw miss at h) quiet)
]

-- What the checks of `UpdateMedia` have seen.
media_checks_sound :
    (s : Service) (db : Db) (w c u : ℕ) (m : MediaPatch) (call : Call) (p : CallParticipant)
    → media_checks s db w c u m ≡ ok (call, p)
    → (get_participant db c u ≡ ok p) × (share_check s db c m p ≡ ok tt)
unfolding media_checks
media_checks_sound s db w c u m call p h = (ground arith, ground arith)

share_check_sound :
    (s : Service) (db : Db) (c : ℕ) (m : MediaPatch) (p : CallParticipant)
    → share_check s db c m p ≡ ok tt
    → ((is_on m.screen_sharing && not p.screen_sharing) ≡ false)
      ⊎ (pos (suc (count_where (is_other_share p.id) (rows_where (is_in c) db.participants)))
          ≤ℤ screen_share_limit s)
unfolding check_screen_share_capacity list_participants
share_check_sound s db c m p h =
    elim (Bool-cases (is_on m.screen_sharing && not p.screen_sharing)) [
      | inr off ↦ inl off
      | inl on ↦ inr (ground arith)
    ]

update_media_rows :
    (s : Service) (w c u : ℕ) (m : MediaPatch) (db : Db) (call : Call) (p : CallParticipant)
    → media_checks s db w c u m ≡ ok (call, p)
    → ((update_media s w c u m db).0.participants ≡ db.participants)
      ⊎ ((update_media s w c u m db).0.participants
          ≡ update_where (is_participant p.id) (set_media (overlaid m p)) db.participants)
unfolding update_media reading bind with_error update_participant_media do_publish
update_media_rows s w c u m db call p checked =
    elim (Result-cases (writes_media (overlaid m p) db).1) [
      | inr (e, bad) ↦ inl (rw checked (ground arith))
      | inl (_, fine) ↦ inr (rw checked (ground arith))
    ]

get_participant_row :
    (db : Db) (c u : ℕ) (p : CallParticipant)
    → get_participant db c u ≡ ok p
    → find_where (is_user_in c u) db.participants ≡ some p
unfolding get_participant
get_participant_row db c u p h = elim (Option-cases (find_where (is_user_in c u) db.participants)) [
  | inl gone ↦ absurd (ground arith)
  | inr (q, e) ↦ ground arith
]

written_bounded :
    (s : Service) (w c u : ℕ) (m : MediaPatch) (db : Db) (call : Call) (p : CallParticipant)
    → Keyed row_key db.participants
    → pos (shares c db.participants) ≤ℤ screen_share_limit s
    → media_checks s db w c u m ≡ ok (call, p)
    → pos (shares c (update_where (is_participant p.id) (set_media (overlaid m p)) db.participants))
      ≤ℤ screen_share_limit s
written_bounded s w c u m db call p k bounded checked =
    let (read, free) = media_checks_sound s db w c u m call p checked in
    let row =
      find-own row_key (is_user_in c u) p db.participants k (get_participant_row db c u p read) in
    elim (share_check_sound s db c m p free) [
      | inl quiet ↦
          let starts_none : ((overlaid m p).screen_sharing && not p.screen_sharing) ≡ false =
            ground arith in
          let fewer = shares-quiet c p.id (overlaid m p) p db.participants k row starts_none in
          omega arith
      | inr free ↦
          let one_more = shares-update c p.id (overlaid m p) db.participants k in omega arith
    ]

-- Where ids are keys of the table of participants, `UpdateMedia` keeps the number of screens that the connected
-- participants of the call share within the limit of the configuration (one, where none is set), whatever it returns.
pub update_media_bounded :
    (s : Service) (w c u : ℕ) (m : MediaPatch) (db : Db)
    → Keyed row_key db.participants
    → pos (shares c db.participants) ≤ℤ screen_share_limit s
    → pos (shares c (update_media s w c u m db).0.participants) ≤ℤ screen_share_limit s
unfolding update_media reading
update_media_bounded s w c u m db k bounded = elim (Result-cases (media_checks s db w c u m)) [
  | inr (e, bad) ↦ rw bad bounded
  | inl ((call, p), checked) ↦ elim (update_media_rows s w c u m db call p checked) [
    | inl same ↦ rw same bounded
    | inr rows ↦ rw rows (written_bounded s w c u m db call p k bounded checked)
  ]
]
