-- ===== src/Auth/Rotation.antt =====
-- The refresh tokens of backend/internal/auth/repository.go that can be exchanged, over any history.
use nimbus_storage_platform.Base.{
  ℕ, suc, ◌≤◌, ◌≡◌, refl, sym, ap, subst, ◌∙◌, Bool, true, false, not, ◌&&◌, ◌||◌, Option, none,
  some, List, [], ◌∷◌, map, arith, ltb, ◌==◌, filter, any, find?, length, Bool-cases, Option-cases,
  inl, inr,
}
use nimbus_storage_platform.Auth.{
  RefreshToken, ResetToken, Sessions, is_unused, with_hash, in_family, insert_token, stored_or,
  create_refresh_family, mark_used, successor, rotate_row, rotate_refresh_token, revoke_family,
  reset_password, reset_with, Operation, login, refresh, logout, reset, operate, history,
}

-- The tokens of a family that can still be exchanged.
abbrev pub is_live_in : ℕ → RefreshToken → Bool
is_live_in family_id t = in_family family_id t && is_unused t.used_at

abbrev pub live_tokens : ℕ → List RefreshToken → ℕ
live_tokens family_id rows = length (filter (is_live_in family_id) rows)

-- No family has two tokens that can be exchanged.
abbrev pub IsSingle : Sessions → Type 0
IsSingle s = (family_id : ℕ) → live_tokens family_id s.refresh_tokens ≤ 1

live-filter :
    (p : RefreshToken → Bool) (f : ℕ) (rows : List RefreshToken)
    → live_tokens f (filter p rows) ≤ live_tokens f rows
live-filter p f [] = omega arith
live-filter p f (t ∷ ts) = ground (arith, live-filter p f ts)

live-mark :
    (id now f : ℕ) (rows : List RefreshToken)
    → live_tokens f (map (mark_used id now) rows) ≤ live_tokens f rows
live-mark id now f [] = omega arith
live-mark id now f (t ∷ ts) = ground (arith, live-mark id now f ts)

live-mark_one :
    (id now f : ℕ) (rows : List RefreshToken)
    → any (λ t. t.id == id && is_live_in f t) rows ≡ true
    → suc (live_tokens f (map (mark_used id now) rows)) ≤ live_tokens f rows
live-mark_one id now f [] h = cc
live-mark_one id now f (t ∷ ts) h = ground (arith, live-mark id now f ts, live-mark_one id now f ts)

found-any :
    (hash : ℕ) (old : RefreshToken) (rows : List RefreshToken)
    → find? (with_hash hash) rows ≡ some old
    → is_unused old.used_at ≡ true
    → any (λ t. t.id == old.id && is_live_in old.family_id t) rows ≡ true
found-any hash old [] h u = cc
found-any hash old (t ∷ ts) h u = elim (Bool-cases (with_hash hash t)) [
  | inl here ↦ let same : t ≡ old = ground arith in rw same (ground (arith, u))
  | inr there ↦ ground (arith, found-any hash old ts (rw there at h) u)
]

insert_token-some :
    (t : RefreshToken) (rows rows' : List RefreshToken)
    → insert_token t rows ≡ some rows'
    → (any (with_hash t.token_hash) rows ≡ false) × (t ∷ rows ≡ rows')
unfolding insert_token
insert_token-some t rows rows' h = ground arith

live-successor :
    (id now new_hash expires f : ℕ) (old : RefreshToken) (rows : List RefreshToken)
    → any (λ t. t.id == old.id && is_live_in old.family_id t) rows ≡ true
    → live_tokens f (successor id old new_hash expires ∷ map (mark_used old.id now) rows)
      ≤ live_tokens f rows
live-successor id now new_hash expires f old rows h = elim (Bool-cases (old.family_id == f)) [
  | inr other ↦ rw other (live-mark old.id now f rows)
  | inl same ↦
      let e : old.family_id ≡ f = ground arith in
      let here = subst (λ x. any (λ t. t.id == old.id && is_live_in x t) rows ≡ true) e h in
      rw same (live-mark_one old.id now f rows here)
]

rotate_row-IsSingle :
    (id now new_hash expires : ℕ) (old : RefreshToken) (s : Sessions)
    → (is_unused old.used_at ≡ true
        → any (λ t. t.id == old.id && is_live_in old.family_id t) s.refresh_tokens ≡ true)
    → IsSingle s
    → IsSingle (rotate_row id now old new_hash expires s).1
unfolding rotate_row
rotate_row-IsSingle id now new_hash expires old s present single =
    elim (Bool-cases (is_unused old.used_at)) [
      | inr used ↦ rw used (λ f.
          omega (
            arith,
            live-filter (λ t. not (in_family old.family_id t)) f s.refresh_tokens,
            single f,
          ))
      | inl unused ↦ elim (Bool-cases (ltb old.expires_at now)) [
        | inl expired ↦ rw (unused, expired) single
        | inr valid ↦
            rw (unused, valid)
              (stored
                (insert_token (successor id old new_hash expires)
                  (map (mark_used old.id now) s.refresh_tokens))
                refl (present unused))
      ]
    ]
  where
    stored :
        (o : Option (List RefreshToken))
        → insert_token
            (successor id old new_hash expires)
            (map (mark_used old.id now) s.refresh_tokens)
          ≡ o
        → any (λ t. t.id == old.id && is_live_in old.family_id t) s.refresh_tokens ≡ true
        → IsSingle (stored_or o old.user_id s).1
    stored none e h = single
    stored (some rows) e h =
        let (_, new_rows) = insert_token-some (successor id old new_hash expires) _ rows e in
        λ f.
          rw (← new_rows) (
            omega
              (arith, live-successor id now new_hash expires f old s.refresh_tokens h, single f))

rotate-IsSingle :
    (id now old_hash new_hash expires : ℕ) (s : Sessions)
    → IsSingle s
    → IsSingle (rotate_refresh_token id now old_hash new_hash expires s).1
unfolding rotate_refresh_token
rotate-IsSingle id now old_hash new_hash expires s single =
    elim (Option-cases (find? (with_hash old_hash) s.refresh_tokens)) [
      | inl absent ↦ rw absent single
      | inr (old, found) ↦ rw found (
          rotate_row-IsSingle id now new_hash expires old s
            (found-any old_hash old s.refresh_tokens found) single)
    ]

live-absent :
    (f : ℕ) (rows : List RefreshToken) → any (in_family f) rows ≡ false → live_tokens f rows ≡ 0
live-absent f [] h = refl
live-absent f (t ∷ ts) h = ground (arith, live-absent f ts)

-- A login starts a family that no token has yet; the other operations need nothing.
abbrev pub StartsFresh : Operation → Sessions → Type 0
StartsFresh (login id family_id user_id hash expires) s =
    any (in_family family_id) s.refresh_tokens ≡ false
StartsFresh (refresh _ _ _ _ _) s = Unit
StartsFresh (logout _) s = Unit
StartsFresh (reset _ _ _) s = Unit

abbrev pub AllFresh : List Operation → Sessions → Type 0
AllFresh [] s = Unit
AllFresh (o ∷ os) s = StartsFresh o (history os s) × AllFresh os s

create-IsSingle :
    (id family_id user_id hash expires : ℕ) (s : Sessions)
    → any (in_family family_id) s.refresh_tokens ≡ false
    → IsSingle s
    → IsSingle (create_refresh_family id family_id user_id hash expires s).1
unfolding create_refresh_family insert_token
create-IsSingle id family_id user_id hash expires s new single =
    elim (Bool-cases (any (with_hash hash) s.refresh_tokens)) [
      | inl taken ↦ rw taken single
      | inr free ↦ rw free (λ f. elim (Bool-cases (family_id == f)) [
        | inr other ↦ rw other (single f)
        | inl same ↦
            let e : family_id ≡ f = ground arith in
            rw same (
              omega (
                arith,
                ap (λ x. live_tokens x s.refresh_tokens) (sym e)
                    ∙ live-absent family_id s.refresh_tokens new,
              ))
      ])
    ]

revoke-IsSingle : (hash : ℕ) (s : Sessions) → IsSingle s → IsSingle (revoke_family hash s).1
unfolding revoke_family
revoke-IsSingle hash s single = elim (Option-cases (find? (with_hash hash) s.refresh_tokens)) [
  | inl absent ↦ rw (absent, revoke_family) single
  | inr (t, found) ↦
      rw (found, revoke_family)
        (λ f.
          omega
            (arith, live-filter (λ x. not (in_family t.family_id x)) f s.refresh_tokens, single f))
]

reset_with-IsSingle :
    (now hash password : ℕ) (r : ResetToken) (s : Sessions)
    → IsSingle s
    → IsSingle (reset_with now hash password r s).1
reset_with-IsSingle now hash password r s single =
    elim (Bool-cases (not (is_unused r.used_at) || ltb r.expires_at now)) [
      | inl refused ↦ rw refused single
      | inr accepted ↦ rw accepted (λ f.
          omega
            (arith, live-filter (λ t. not (t.user_id == r.user_id)) f s.refresh_tokens, single f))
    ]

reset-IsSingle :
    (now hash password : ℕ) (s : Sessions)
    → IsSingle s
    → IsSingle (reset_password now hash password s).1
unfolding reset_password
reset-IsSingle now hash password s single =
    elim (Option-cases (find? (λ (r : ResetToken). r.token_hash == hash) s.reset_tokens)) [
      | inl absent ↦ rw (absent, reset_password) single
      | inr (r, found) ↦
          rw (found, reset_password) (reset_with-IsSingle now hash password r s single)
    ]

operate-IsSingle :
    (o : Operation) (s : Sessions) → StartsFresh o s → IsSingle s → IsSingle (operate o s)
unfolding operate
operate-IsSingle (login id family_id user_id hash expires) s new single =
    create-IsSingle id family_id user_id hash expires s new single
operate-IsSingle (refresh id now old_hash new_hash expires) s new single =
    rotate-IsSingle id now old_hash new_hash expires s single
operate-IsSingle (logout hash) s new single = revoke-IsSingle hash s single
operate-IsSingle (reset now hash password) s new single = reset-IsSingle now hash password s single

-- Whatever logins, refreshes, logouts and password resets follow each other, each login under a new
-- family identifier: from sessions in which no family has two tokens that can be exchanged, none ever
-- gets two.
pub history-IsSingle :
    (os : List Operation) (s : Sessions) → AllFresh os s → IsSingle s → IsSingle (history os s)
unfolding history
history-IsSingle [] s new single = single
history-IsSingle (o ∷ os) s new single =
    operate-IsSingle o (history os s) new.0 (history-IsSingle os s new.1 single)
