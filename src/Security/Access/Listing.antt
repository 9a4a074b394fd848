-- ===== src/Security/Access/Listing.antt =====
-- `ListChannels` and `dedupeChannels` of internal/security/accesspolicy/checker.go, over
-- `ListByWorkspace` of internal/repository/postgres/channel.go.
use aloqa_codex.Common.{
  ℕ, zero, suc, ◌||◌, List, [], ◌∷◌, ◌++◌, Option, none, some, if◌then◌else◌, length, ltb,
}
use aloqa_codex.Common.Equality.{contains, nat_eq}
use aloqa_codex.Common.Int.{ℤ, pos, pos_part, ◌+ℤ◌, ltb_ℤ}
use aloqa_codex.Pagination.{Params, normalize}
use aloqa_codex.Domain.{Channel}
use aloqa_codex.Cerrors.{
  wrap, Result, ok, err, ◌>>=◌, map_err, is_not_found, is_forbidden, new_internal, new_forbidden,
}
use aloqa_codex.Security.Access.{
  Capability, view, participate, Checker, workspace_member, channel_access,
}

abbrev pub take {ℓ} : {A : Type ℓ} → ℕ → List A → List A
take zero xs = []
take (suc n) [] = []
take (suc n) (x ∷ xs) = x ∷ take n xs

-- What the database answers to a query for the channels of a workspace below a cursor, at most as
-- many as the limit, and for the channels of a member.
pub record Channels : Type 0 where
  pub query_workspace : ℕ → ℕ → ℤ → Result (List Channel)
  pub list_by_user : ℕ → ℕ → Result (List Channel)

-- `if len(channels) > p.Limit { channels = channels[:p.Limit] }`
unfoldable pub cut : ℤ → List Channel → List Channel
cut limit channels =
    if ltb_ℤ limit (pos (length channels)) then take (pos_part limit) channels else channels

unfoldable pub cut_page : ℤ → Result (List Channel) → Result (List Channel)
unfolding cut
cut_page limit (err e) = err (wrap "postgres: list channels by workspace" e)
cut_page limit (ok channels) = ok (cut limit channels)

-- `ListByWorkspace`: one row more than the normalised limit is asked for and cut off again.
unfoldable pub list_by_workspace : Channels → ℕ → Params → Result (List Channel)
list_by_workspace db workspace_id params =
    let p = normalize params in
    cut_page p.limit (db.query_workspace workspace_id p.cursor (p.limit +ℤ pos 1))

-- The loop over the channels that the user takes part in: a channel that is refused is left out.
unfoldable pub keep_accessible : Checker → ℕ → Capability → List Channel → List Channel
unfolding channel_access
keep_accessible c user_id capability [] = []
keep_accessible c user_id capability (ch ∷ chs) =
    let rest = keep_accessible c user_id capability chs in
    elim (channel_access (some c) ch.id user_id capability) [
      | ok d ↦ d.channel ∷ rest
      | err _ ↦ rest
    ]

-- The loop over a page: a refusal or a missing channel is passed over, any other error ends it.
unfoldable pub visible_of_page : Checker → ℕ → Capability → List Channel → Result (List Channel)
unfolding channel_access
visible_of_page c user_id capability [] = ok []
visible_of_page c user_id capability (ch ∷ chs) =
    let rest = visible_of_page c user_id capability chs in
    elim (channel_access (some c) ch.id user_id capability) [
      | ok d ↦ rest >>= λ channels. ok (d.channel ∷ channels)
      | err e ↦ if is_forbidden e || is_not_found e then rest else err e
    ]

abbrev pub last_id : List Channel → ℕ
last_id [] = 0
last_id (ch ∷ []) = ch.id
last_id (_ ∷ ch ∷ chs) = last_id (ch ∷ chs)

abbrev pub page_params : ℕ → Params
page_params cursor = record { cursor = cursor; limit = pos 200; offset = pos 0 }

-- The paging loop, with fuel; `none` means that the fuel ran out.
unfoldable pub list_pages :
    ℕ → Checker → Channels → ℕ → ℕ → Capability → ℕ → List Channel → Option (Result (List Channel))
list_pages zero c db workspace_id user_id capability cursor all = none
list_pages (suc fuel) c db workspace_id user_id capability cursor all =
    elim (map_err (new_internal "failed to list workspace channels")
      (list_by_workspace db workspace_id (page_params cursor))) [
        | err e ↦ some (err e)
        | ok page ↦ elim (visible_of_page c user_id capability page) [
          | err e ↦ some (err e)
          | ok found ↦
              let more =
                list_pages fuel c db workspace_id user_id capability (last_id page)
                  (all ++ found) in
              if ltb (length page) 200 then some (ok (all ++ found)) else more
        ]
      ]

unfoldable pub dedupe_from : List ℕ → List Channel → List Channel
dedupe_from seen [] = []
dedupe_from seen (ch ∷ chs) =
    if contains ch.id seen then dedupe_from seen chs else ch ∷ dedupe_from (ch.id ∷ seen) chs

unfoldable pub dedupe_channels : List Channel → List Channel
unfolding dedupe_from
dedupe_channels channels = dedupe_from [] channels

abbrev pub dedupe_result : Option (Result (List Channel)) → Option (Result (List Channel))
dedupe_result none = none
dedupe_result (some (err e)) = some (err e)
dedupe_result (some (ok all)) = some (ok (dedupe_channels all))

abbrev pub list_joined : Checker → Channels → ℕ → ℕ → Capability → Result (List Channel)
list_joined c db workspace_id user_id capability = do
  channels ←
      map_err (new_internal "failed to list user channels") (db.list_by_user workspace_id user_id)
  ok (dedupe_channels (keep_accessible c user_id capability channels))

-- `ListChannels`; a nil checker is `none`.
unfoldable pub list_channels :
    ℕ → Option Checker → Channels → ℕ → ℕ → Capability → Option (Result (List Channel))
unfolding list_pages dedupe_channels workspace_member keep_accessible
list_channels fuel none db workspace_id user_id capability =
    some (err (new_forbidden "channel access is not configured"))
list_channels fuel (some c) db workspace_id user_id view =
    dedupe_result (list_pages fuel c db workspace_id user_id view 0 [])
list_channels fuel (some c) db workspace_id user_id participate =
    elim (workspace_member c workspace_id user_id) [
      | ok _ ↦ some (list_joined c db workspace_id user_id participate)
      | err _ ↦ dedupe_result (list_pages fuel c db workspace_id user_id participate 0 [])
    ]
