-- ===== src/Org/Cache.antt =====
-- backend/internal/org/membership_cache.go and `RequireRole` of middleware.go: the short-lived cache
-- of memberships in front of the role check, and how stale an answer from it can be. Times are
-- milliseconds; a user identifier has no colon, so the key "org:user" is a pair. What a read of the
-- memberships gives at a time is the parameter `roles`; a failing read, like a missing row, is `none`.
use nimbus_storage_platform.Base.{
  ℕ, ◌+◌, ◌≤◌, ◌≡◌, refl, ap, ap₂, sym, ◌∙◌, ◌⊎◌, Bool, not, ◌&&◌, Option, none, some, List, [],
  ◌∷◌, arith, if◌then◌else◌, ltb, ◌==◌, filter, find?, All, All-filter, Bool-cases, inl, inr,
}
use nimbus_storage_platform.Org.{Role, Member, role_rank}

abbrev pub membership_cache_ttl : ℕ
membership_cache_ttl = 5000

pub record CacheEntry : Type 0 where
  pub org_id : ℕ
  pub user_id : ℕ
  pub entry_member : Member
  pub expires_at : ℕ

abbrev pub is_key : ℕ → ℕ → CacheEntry → Bool
is_key org_id user_id e = e.org_id == org_id && e.user_id == user_id

-- `time.Now().After(e.expiresAt)`.
abbrev pub is_stale : ℕ → CacheEntry → Bool
is_stale now e = ltb e.expires_at now

abbrev pub unless_stale : ℕ → Option CacheEntry → Option Member
unless_stale now none = none
unless_stale now (some e) = if is_stale now e then none else some e.entry_member

unfoldable pub cache_get : ℕ → ℕ → ℕ → List CacheEntry → Option Member
cache_get now org_id user_id entries = unless_stale now (find? (is_key org_id user_id) entries)

-- `set`, which sweeps the expired entries and replaces the one under its key.
unfoldable pub cache_set : ℕ → ℕ → ℕ → Member → List CacheEntry → List CacheEntry
cache_set now org_id user_id m entries =
    record {
      org_id = org_id;
      user_id = user_id;
      entry_member = m;
      expires_at = now + membership_cache_ttl;
    }
    ∷ filter (λ e. not (is_key org_id user_id e)) (filter (λ e. not (is_stale now e)) entries)

pub data Decision : Type 0 where
  not_a_member role_required : Decision
  served_as : Member → Decision

pub record Request : Type 0 where
  pub now : ℕ
  pub org_id : ℕ
  pub user_id : ℕ
  pub min_role : Role

abbrev pub decide : Role → Member → Decision
decide min_role m =
    if ltb (role_rank m.role) (role_rank min_role) then role_required else served_as m

-- The membership read on a miss.
abbrev pub on_miss : Request → Option Member → List CacheEntry → Decision × List CacheEntry
on_miss r none entries = (not_a_member, entries)
on_miss r (some m) entries = (decide r.min_role m, cache_set r.now r.org_id r.user_id m entries)

-- The middleware, given what the cache holds and what a read would give.
abbrev pub answer :
    Request → Option Member → Option Member → List CacheEntry → Decision × List CacheEntry
answer r (some m) stored entries = (decide r.min_role m, entries)
answer r none stored entries = on_miss r stored entries

unfoldable pub require_role :
    (ℕ → ℕ → ℕ → Option Member) → Request → List CacheEntry → Decision × List CacheEntry
require_role roles r entries =
    answer r (cache_get r.now r.org_id r.user_id entries) (roles r.now r.org_id r.user_id) entries

-- The cache after the requests of one middleware instance, the newest first.
unfoldable pub after_requests : (ℕ → ℕ → ℕ → Option Member) → List Request → List CacheEntry
after_requests roles [] = []
after_requests roles (r ∷ earlier) = (require_role roles r (after_requests roles earlier)).1

-- An entry that some read up to `bound` gave.
record IsRead (roles : ℕ → ℕ → ℕ → Option Member) (bound : ℕ) (e : CacheEntry) : Type 0 where
  read_at : ℕ
  in_time : read_at ≤ bound
  lasts : e.expires_at ≡ read_at + membership_cache_ttl
  was_member : roles read_at e.org_id e.user_id ≡ some e.entry_member

module _ (roles : ℕ → ℕ → ℕ → Option Member) (bound : ℕ) where
  All-cache_set :
      (now org_id user_id : ℕ) (m : Member) (entries : List CacheEntry)
      → now ≤ bound
      → roles now org_id user_id ≡ some m
      → All (IsRead roles bound) entries
      → All (IsRead roles bound) (cache_set now org_id user_id m entries)
  unfolding cache_set
  All-cache_set now org_id user_id m entries le e h = (
    record { read_at = now; in_time = le; lasts = refl; was_member = e },
    All-filter (IsRead roles bound) (λ x. not (is_key org_id user_id x)) _
        (All-filter (IsRead roles bound) (λ x. not (is_stale now x)) entries h),
  )

  All-answer :
      (r : Request) (cached stored : Option Member) (entries : List CacheEntry)
      → r.now ≤ bound
      → roles r.now r.org_id r.user_id ≡ stored
      → All (IsRead roles bound) entries
      → All (IsRead roles bound) (answer r cached stored entries).1
  All-answer r (some m) stored entries le e h = h
  All-answer r none none entries le e h = h
  All-answer r none (some m) entries le e h =
      All-cache_set r.now r.org_id r.user_id m entries le e h

  All-after_requests :
      (earlier : List Request)
      → All (λ r. r.now ≤ bound) earlier
      → All (IsRead roles bound) (after_requests roles earlier)
  unfolding after_requests require_role
  All-after_requests [] h = tt
  All-after_requests (r ∷ rs) h =
      All-answer r (cache_get r.now r.org_id r.user_id (after_requests roles rs)) _
        (after_requests roles rs) h.0 refl (All-after_requests rs h.1)

  All-find? :
      (org_id user_id : ℕ) (entries : List CacheEntry) (e : CacheEntry)
      → All (IsRead roles bound) entries
      → find? (is_key org_id user_id) entries ≡ some e
      → IsRead roles bound e × (e.org_id ≡ org_id) × (e.user_id ≡ user_id)
  All-find? org_id user_id [] e h found = cc
  All-find? org_id user_id (x ∷ xs) e h found = elim (Bool-cases (is_key org_id user_id x)) [
    | inl here ↦ let same : x ≡ e = ground arith in rw (← same) (h.0, ground arith, ground arith)
    | inr there ↦ All-find? org_id user_id xs e h.1 (rw there at found)
  ]

  cache_get-fresh :
      (now : ℕ) (o : Option CacheEntry) (m : Member)
      → unless_stale now o ≡ some m
      → (e : CacheEntry) × (o ≡ some e) × (e.entry_member ≡ m) × (now ≤ e.expires_at)
  cache_get-fresh now none m h = cc
  cache_get-fresh now (some e) m h = (e, refl, ground arith, ground arith)

  cache_get-IsRead :
      (now org_id user_id : ℕ) (entries : List CacheEntry) (m : Member)
      → All (IsRead roles bound) entries
      → cache_get now org_id user_id entries ≡ some m
      → (t : ℕ) × (t ≤ bound) × (now ≤ t + membership_cache_ttl) × (roles t org_id user_id ≡ some m)
  unfolding cache_get
  cache_get-IsRead now org_id user_id entries m h got =
      let (e, found, same, fresh) =
        cache_get-fresh now (find? (is_key org_id user_id) entries) m got in
      let (read, org, user) = All-find? org_id user_id entries e h found in
      let lasts = read.lasts in
      (
        read.read_at,
        read.in_time,
        omega arith,
        ap₂ (roles read.read_at) (sym org) (sym user) ∙ read.was_member ∙ ap some same,
      )

decide-served :
    (min_role : Role) (m m' : Member)
    → decide min_role m ≡ served_as m'
    → (m ≡ m') × (role_rank min_role ≤ role_rank m.role)
decide-served min_role m m' h = ground arith

answer-served :
    (r : Request) (cached stored : Option Member) (entries : List CacheEntry) (m : Member)
    → (answer r cached stored entries).0 ≡ served_as m
    → (role_rank r.min_role ≤ role_rank m.role) × ((cached ≡ some m) ⊎ (stored ≡ some m))
answer-served r none none entries m h = cc
answer-served r none (some m') entries m h =
    let (same, enough) = decide-served r.min_role m' m h in rw (← same) (enough, inr refl)
answer-served r (some m') stored entries m h =
    let (same, enough) = decide-served r.min_role m' m h in rw (← same) (enough, inl refl)

-- Bounded staleness: whatever requests came before, a request is let through as a member with a
-- sufficient role only where a read of the memberships at most five seconds earlier gave that very
-- row for this organisation and user.
pub require_role-bounded :
    (roles : ℕ → ℕ → ℕ → Option Member) (r : Request) (earlier : List Request) (m : Member)
    → All (λ e. e.now ≤ r.now) earlier
    → (require_role roles r (after_requests roles earlier)).0 ≡ served_as m
    → (role_rank r.min_role ≤ role_rank m.role)
      × (t : ℕ) × (t ≤ r.now)
      × (r.now ≤ t + membership_cache_ttl)
      × (roles t r.org_id r.user_id ≡ some m)
unfolding require_role
require_role-bounded roles r earlier m past h =
    let entries = after_requests roles earlier in
    let cached = cache_get r.now r.org_id r.user_id entries in
    let stored = roles r.now r.org_id r.user_id in
    let (enough, source) = answer-served r cached stored entries m h in
    elim source [
      | inr read ↦ (enough, r.now, omega arith, omega arith, read)
      | inl hit ↦
          let all_read = All-after_requests roles r.now earlier past in
          let c = cache_get-IsRead roles r.now r.now r.org_id r.user_id entries m all_read hit in
          (enough, c.0, c.1, c.2, c.3)
    ]
