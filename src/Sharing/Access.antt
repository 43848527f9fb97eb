-- ===== src/Sharing/Access.antt =====
-- What the holder of a token can reach through backend/internal/sharing/service.go.
use nimbus_storage_platform.Base.{
  ℕ, ◌≡◌, ◌≢◌, refl, sym, ap, ◌∙◌, true, false, not, none, some, List, [], ◌∷◌, arith, ◌==◌, filter,
  any, find?, Bool-cases, Option-cases, inl, inr,
}
use nimbus_storage_platform.Database.Actions.{ok, err}
use nimbus_storage_platform.Database.Results.{◌>>=◌, or_else, chain-ok, ok-injective}
use nimbus_storage_platform.Sharing.{
  ShareLink, FileInfo, Store, Ports, Scope, file_scope, folder_scope, bundle_scope, scope,
  has_token, is_row, is_expired, get_by_token, live_link, covered, is_bundle_member, file_plan,
  resolve, resolve_folder_children, resolve_download_plan, revoke, not_found, not_in_share,
}

-- A file within the scope of a link: the shared file itself, a member of the bundle, or a live file
-- whose folder lies in the shared subtree.
abbrev pub Covers : Ports → Store → ShareLink → Scope → ℕ → Type 0
Covers ports s l (file_scope f) file_id = f ≡ file_id
Covers ports s l bundle_scope file_id = any (is_row l.id file_id) s.members ≡ true
Covers ports s l (folder_scope d) file_id =
    (at : ℕ) × (ports.live_file_folder file_id ≡ ok at)
    × (ports.is_self_or_descendant d at ≡ ok true)

live_link-ok :
    (now token : ℕ) (s : Store) (l : ShareLink)
    → live_link now token s ≡ ok l
    → (find? (has_token token) s.links ≡ some l) × (is_expired now l.expires_at ≡ false)
unfolding live_link get_by_token
live_link-ok now token s l h = ground arith

covered-Covers :
    (ports : Ports) (s : Store) (l : ShareLink) (file_id : ℕ)
    → covered ports l file_id s ≡ ok true
    → Covers ports s l (scope l) file_id
unfolding covered is_bundle_member
covered-Covers ports s l file_id = go (scope l)
  where
    go :
        (sc : Scope)
        → elim sc [
          | file_scope f ↦ ok (f == file_id)
          | bundle_scope ↦ is_bundle_member l.id file_id s
          | folder_scope d ↦ or_else (ports.live_file_folder file_id) not_in_share >>= λ at.
              ports.is_self_or_descendant d at
        ]
          ≡ ok true
        → Covers ports s l sc file_id
    go (file_scope f) h = ground arith
    go bundle_scope h = ground arith
    go (folder_scope d) h =
        let (at, e, inside) =
          chain-ok (or_else (ports.live_file_folder file_id) not_in_share) _ h in
        (at, ground arith, inside)

file_plan-ok :
    (ports : Ports) (file_id : ℕ) (info : FileInfo) (plan : List ℕ)
    → file_plan ports file_id ≡ ok (info, plan)
    → (ports.get_for_share file_id ≡ ok info)
      × (v : ℕ) × (info.latest_version_id ≡ some v)
      × (ports.download_plan info.id v ≡ ok plan)
unfolding file_plan
file_plan-ok ports file_id info plan h =
    let (found, e, rest) = chain-ok (ports.get_for_share file_id) _ h in
    elim (Option-cases found.latest_version_id) [
      | inl unversioned ↦ cc (rw unversioned at rest)
      | inr (v, versioned) ↦
          let (p, planned, last) =
            chain-ok (ports.download_plan found.id v) _ (rw versioned at rest) in
          let pair = ok-injective last in
          let same = ap (λ r. r.0) pair in
          (
            e ∙ ap ok same,
            v,
            ap (λ (x : FileInfo). x.latest_version_id) (sym same) ∙ versioned,
            ap (λ (x : FileInfo). ports.download_plan x.id v) (sym same)
                ∙ planned
                ∙ ap (λ r. ok r.1) pair,
          )
    ]

-- A download plan is handed out only for a token of an unexpired link whose scope covers the file,
-- and it is the plan of the file's latest version.
pub resolve_download_plan-Covers :
    (ports : Ports) (now token file_id : ℕ) (s : Store) (info : FileInfo) (plan : List ℕ)
    → resolve_download_plan ports now token file_id s ≡ ok (info, plan)
    → (l : ShareLink) × (find? (has_token token) s.links ≡ some l)
      × (is_expired now l.expires_at ≡ false)
      × Covers ports s l (scope l) file_id
      × (ports.get_for_share file_id ≡ ok info)
      × (v : ℕ) × (info.latest_version_id ≡ some v)
      × (ports.download_plan info.id v ≡ ok plan)
unfolding resolve_download_plan
resolve_download_plan-Covers ports now token file_id s info plan h =
    let (l, live, rest) = chain-ok (live_link now token s) _ h in
    let (inside, scoped, last) = chain-ok (covered ports l file_id s) _ rest in
    elim (Bool-cases inside) [
      | inr outside ↦ cc (rw outside at last)
      | inl within ↦
          let p = file_plan-ok ports file_id info plan (rw within at last) in
          let found = live_link-ok now token s l live in
          (
            l,
            found.0,
            found.1,
            covered-Covers ports s l file_id (scoped ∙ ap ok within),
            p.0,
            p.1,
            p.2,
            p.3,
          )
    ]

revoked :
    (token : ℕ) (ls : List ShareLink)
    → find? (has_token token) (filter (λ l. not (has_token token l)) ls) ≡ none
revoked token [] = refl
revoked token (l ∷ ls) = ground (arith, revoked token ls)

kept :
    (token other : ℕ) (ls : List ShareLink)
    → other ≢ token
    → find? (has_token other) (filter (λ l. not (has_token token l)) ls)
      ≡ find? (has_token other) ls
kept token other [] h = refl
kept token other (l ∷ ls) h = ground (arith, kept token other ls h)

revoke-ok :
    (token : ℕ) (s s' : Store)
    → revoke token s ≡ ok s'
    → (s.answers ≡ true)
      × (s'.answers ≡ s.answers)
      × (s'.links ≡ filter (λ l. not (has_token token l)) s.links)
unfolding revoke
revoke-ok token s s' h = ground arith

get_by_token-revoke :
    (token : ℕ) (s s' : Store)
    → revoke token s ≡ ok s'
    → (get_by_token token s' ≡ err not_found)
      × ((other : ℕ) → other ≢ token → get_by_token other s' ≡ get_by_token other s)
unfolding get_by_token
get_by_token-revoke token s s' h =
    let (up, same, links) = revoke-ok token s s' h in
    (
      rw (same, up, links, revoked token s.links) refl,
      λ other d. rw (same, up, links, kept token other s.links d) refl,
    )

-- A successful revocation ends all access by the token: the link, its folders and its downloads are
-- not found. Every other token still finds the link that it found.
pub revoke_ends_access :
    (ports : Ports) (token : ℕ) (s s' : Store)
    → revoke token s ≡ ok s'
    → ((now : ℕ) → resolve ports now token s' ≡ err not_found)
      × ((now folder_id : ℕ) → resolve_folder_children ports now token folder_id s' ≡ err not_found)
      × ((now file_id : ℕ) → resolve_download_plan ports now token file_id s' ≡ err not_found)
      × ((other : ℕ) → other ≢ token → get_by_token other s' ≡ get_by_token other s)
unfolding resolve resolve_folder_children resolve_download_plan live_link
revoke_ends_access ports token s s' h =
    let (gone, others) = get_by_token-revoke token s s' h in
    (λ now. rw gone refl, λ now folder_id. rw gone refl, λ now file_id. rw gone refl, others)
