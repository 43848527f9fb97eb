-- ===== src/Auth/Reuse.antt =====
-- A refresh token of backend/internal/auth/repository.go that is presented twice.
use nimbus_storage_platform.Base.{
  ℕ, ◌≡◌, refl, sym, ap, ◌∙◌, Bool, true, false, not, none, some, List, [], ◌∷◌, map, arith, ◌==◌,
  filter, any, find?, Bool-cases, Option-cases, inl, inr,
}
use nimbus_storage_platform.Database.Actions.{ok, err}
use nimbus_storage_platform.Auth.{
  RefreshToken, Sessions, invalid_refresh, with_hash, in_family, set_tokens, insert_token,
  mark_used, successor, without_family, rotate_row, rotate_refresh_token,
}

find-mark :
    (hash id now : ℕ) (old : RefreshToken) (rows : List RefreshToken)
    → find? (with_hash hash) rows ≡ some old
    → find? (with_hash hash) (map (mark_used id now) rows) ≡ some (mark_used id now old)
find-mark hash id now old [] h = cc
find-mark hash id now old (t ∷ ts) h = elim (Bool-cases (with_hash hash t)) [
  | inl here ↦
      let same : t ≡ old = ground arith in
      let here' : with_hash hash old ≡ true = ap (with_hash hash) (sym same) ∙ here in
      rw same (ground (arith, here'))
  | inr there ↦ ground (arith, find-mark hash id now old ts (rw there at h))
]

find-any :
    (hash : ℕ) (old : RefreshToken) (rows : List RefreshToken)
    → find? (with_hash hash) rows ≡ some old
    → any (with_hash hash) rows ≡ true
find-any hash old [] h = cc
find-any hash old (t ∷ ts) h = ground (arith, find-any hash old ts)

find-filter_absent :
    (hash : ℕ) (p : RefreshToken → Bool) (rows : List RefreshToken)
    → any (with_hash hash) rows ≡ false
    → find? (with_hash hash) (filter p rows) ≡ none
find-filter_absent hash p [] h = refl
find-filter_absent hash p (t ∷ ts) h = ground (arith, find-filter_absent hash p ts)

-- What a successful rotation found and left.
record Rotated (id now old_hash new_hash expires : ℕ) (s s' : Sessions) : Type 0 where
  old : RefreshToken
  found : find? (with_hash old_hash) s.refresh_tokens ≡ some old
  unique : any (with_hash new_hash) (map (mark_used old.id now) s.refresh_tokens) ≡ false
  left :
      s'.refresh_tokens
      ≡ successor id old new_hash expires ∷ map (mark_used old.id now) s.refresh_tokens

rotate-Rotated :
    (id now old_hash new_hash expires : ℕ) (s s' : Sessions) {user_id : ℕ}
    → rotate_refresh_token id now old_hash new_hash expires s ≡ (ok user_id, s')
    → Rotated id now old_hash new_hash expires s s'
unfolding rotate_refresh_token rotate_row insert_token
rotate-Rotated id now old_hash new_hash expires s s' h =
    elim (Option-cases (find? (with_hash old_hash) s.refresh_tokens)) [
      | inl absent ↦ cc (rw absent at h)
      | inr (old, found) ↦
          let h' = rw found at h in
          record { old = old; found = found; unique = ground arith; left = ground arith }
    ]

self-mark : (now : ℕ) (t : RefreshToken) → mark_used t.id now t ≡ record t { used_at = some now }
self-mark now t = ground arith

-- The old token is still found after its rotation, as used.
found-used :
    (id now old_hash new_hash expires : ℕ) (s s' : Sessions)
    → (r : Rotated id now old_hash new_hash expires s s')
    → find? (with_hash old_hash) s'.refresh_tokens ≡ some (record (r.old) { used_at = some now })
found-used id now old_hash new_hash expires s s' r =
    let marked = find-mark old_hash r.old.id now r.old s.refresh_tokens r.found in
    elim (Bool-cases (new_hash == old_hash)) [
      | inl same ↦
          let e : new_hash ≡ old_hash = ground arith in
          let rows = map (mark_used r.old.id now) s.refresh_tokens in
          cc (
            find-any old_hash (mark_used r.old.id now r.old) rows marked,
            r.unique,
            ap (λ x. any (with_hash x) rows) e,
          )
      | inr other ↦ rw (r.left, other) (marked ∙ ap some (self-mark now r.old))
    ]

-- The family of a used token goes whole.
rotate_used :
    (id now hash new_hash expires : ℕ) (s : Sessions) (t : RefreshToken) (used : ℕ)
    → find? (with_hash hash) s.refresh_tokens ≡ some (record t { used_at = some used })
    → rotate_refresh_token id now hash new_hash expires s
      ≡ (err invalid_refresh, set_tokens (without_family t.family_id s.refresh_tokens) s)
unfolding rotate_refresh_token rotate_row
rotate_used id now hash new_hash expires s t used found = rw found refl

-- A refresh token works once. After a successful rotation, presenting the old token again is refused,
-- and takes with it the token that the rotation gave out: it is found no more.
pub rotate_refresh_token-reuse :
    (id now old_hash new_hash expires id' now' hash' expires' : ℕ) (s s' : Sessions) {user_id : ℕ}
    → rotate_refresh_token id now old_hash new_hash expires s ≡ (ok user_id, s')
    → let (result, t) = rotate_refresh_token id' now' old_hash hash' expires' s' in
      (result ≡ err invalid_refresh) × (find? (with_hash new_hash) t.refresh_tokens ≡ none)
rotate_refresh_token-reuse id now old_hash new_hash expires id' now' hash' expires' s s' h =
    let r = rotate-Rotated id now old_hash new_hash expires s s' h in
    let again =
      rotate_used id' now' old_hash hash' expires' s' r.old now
        (found-used id now old_hash new_hash expires s s' r) in
    let absent =
      find-filter_absent new_hash (λ t. not (in_family r.old.family_id t))
        (map (mark_used r.old.id now) s.refresh_tokens) r.unique in
    let same : (r.old.family_id == r.old.family_id) ≡ true = ground arith in
    rw (again, r.left, same) (refl, absent)
