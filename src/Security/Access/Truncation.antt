-- ===== src/Security/Access/Truncation.antt =====
-- How much `ListChannels` of internal/security/accesspolicy/checker.go lists.
use aloqa_codex.Common.{ℕ, zero, suc, ◌≤◌, List, [], ◌∷◌, some, ◌≡◌, inl, inr, arith, length}
use aloqa_codex.Common.Equality.{nat_eq}
use aloqa_codex.Common.Int.{pos, ◌+ℤ◌}
use aloqa_codex.Pagination.{normalize}
use aloqa_codex.Domain.{Channel}
use aloqa_codex.Cerrors.{Result, ok, err, new_internal, Result-cases}
use aloqa_codex.Security.Access.{Capability, view, Checker}
use aloqa_codex.Security.Access.Listing.{
  take, Channels, cut, cut_page, list_by_workspace, visible_of_page, page_params, list_pages,
  dedupe_from, dedupe_channels, list_channels,
}

length-take-le {ℓ} : {A : Type ℓ} (n : ℕ) (xs : List A) → length (take n xs) ≤ n
length-take-le zero xs = omega arith
length-take-le (suc n) [] = omega arith
length-take-le (suc n) (x ∷ xs) = omega (arith, length-take-le n xs)

length-cut-le : (n : ℕ) (xs : List Channel) → length (cut (pos n) xs) ≤ n
unfolding cut
length-cut-le n xs = ground (arith, length-take-le n xs)

length-cut_page-le :
    (n : ℕ) (r : Result (List Channel)) (page : List Channel)
    → cut_page (pos n) r ≡ ok page
    → length page ≤ n
unfolding cut_page
length-cut_page-le n (err e) page h = absurd (cc)
length-cut_page-le n (ok rows) page h = ground (arith, length-cut-le n rows)

-- A page is never longer than 100, though 200 is asked for.
list_by_workspace-le :
    (db : Channels) (workspace_id cursor : ℕ) (page : List Channel)
    → list_by_workspace db workspace_id (page_params cursor) ≡ ok page
    → length page ≤ 100
unfolding list_by_workspace normalize
list_by_workspace-le db workspace_id cursor page h =
    length-cut_page-le 100 (db.query_workspace workspace_id cursor (pos 100 +ℤ pos 1)) page h

visible_of_page-le :
    (c : Checker) (user_id : ℕ) (capability : Capability) (page out : List Channel)
    → visible_of_page c user_id capability page ≡ ok out
    → length out ≤ length page
unfolding visible_of_page
visible_of_page-le c user_id capability [] out h = ground arith
visible_of_page-le c user_id capability (ch ∷ chs) out h =
    elim (Result-cases (visible_of_page c user_id capability chs)) [
      | inl (rest, done) ↦ ground (
        arith,
        done,
        visible_of_page-le c user_id capability chs rest done,
        visible_of_page-le c user_id capability chs out,
      )
      | inr (e, failed) ↦ absurd (ground (arith, failed))
    ]

dedupe_from-le : (seen : List ℕ) (chs : List Channel) → length (dedupe_from seen chs) ≤ length chs
unfolding dedupe_from
dedupe_from-le seen [] = omega arith
dedupe_from-le seen (ch ∷ chs) =
    ground (arith, dedupe_from-le seen chs, dedupe_from-le (ch.id ∷ seen) chs)

-- A list of channels, or an error: at most 100.
abbrev pub WithinPage : Result (List Channel) → Type 0
WithinPage (ok channels) = length channels ≤ 100
WithinPage (err e) = Unit {0}

-- Every call of `ListChannels` to view the channels of a workspace ends in its first round, with an
-- error or at most 100 channels: the loop asks for 200, a page is cut to 100, and a page of less than
-- 200 is taken for the last.
pub list_channels_truncates :
    (fuel : ℕ) (c : Checker) (db : Channels) (workspace_id user_id : ℕ)
    → (r : Result (List Channel)) × (list_channels (suc fuel) (some c) db workspace_id user_id view
        ≡ some r)
      × WithinPage r
unfolding list_channels list_pages dedupe_channels
list_channels_truncates fuel c db workspace_id user_id =
    elim (Result-cases (list_by_workspace db workspace_id (page_params 0))) [
      | inr (e, failed) ↦ (
        err (new_internal "failed to list workspace channels" e),
        rw (failed, list_channels, list_pages),
        tt,
      )
      | inl (page, paged) ↦ elim (Result-cases (visible_of_page c user_id view page)) [
        | inr (e, failed) ↦ (err e, ground (arith, paged, failed), tt)
        | inl (found, seen) ↦ (
          ok (dedupe_from [] found),
          ground (arith, paged, seen, list_by_workspace-le db workspace_id 0 page paged),
          omega (
            arith,
            list_by_workspace-le db workspace_id 0 page paged,
            visible_of_page-le c user_id view page found seen,
            dedupe_from-le [] found,
          ),
        )
      ]
    ]
