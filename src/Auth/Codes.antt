-- ===== src/Auth/Codes.antt =====
-- The single use of one-time codes (`verifyTOTPOnce` of backend/internal/auth/service.go), over the
-- operations that share their Redis.
use nimbus_storage_platform.Base.{
  ℕ, ◌<◌, ◌≡◌, inl, inr, Bool, true, false, ◌&&◌, List, [], ◌∷◌, arith, any, ltb, leb, ◌==◌,
  Bool-cases,
}
use nimbus_storage_platform.Auth.Redis.{
  RedisKey, totp_used, totp_challenge, blacklist, same_key, Entry, redis_get, redis_del, redis_set,
}
use nimbus_storage_platform.Auth.World.{AuthWorld}
use nimbus_storage_platform.Auth.Service.{is_some, burn}

-- An entry of a key that lasts until a time.
abbrev pub lasts : RedisKey → ℕ → Entry → Bool
lasts key until e = same_key key e.key && leb until e.expires_at

abbrev pub Holds : RedisKey → ℕ → List Entry → Type 0
Holds key until entries = any (lasts key until) entries ≡ true

pub held-get :
    (key : RedisKey) (until now : ℕ) (entries : List Entry)
    → now < until
    → Holds key until entries
    → is_some (redis_get key now entries) ≡ true
unfolding redis_get
held-get key until now [] h k = cc
held-get key until now (e ∷ es) h k = ground (arith, held-get key until now es h)

-- Another key's entry leaves it in place.
pub other-del :
    (key other : RedisKey) (until : ℕ) (entries : List Entry)
    → ((e : Entry) → same_key key e.key ≡ true → same_key other e.key ≡ false)
    → Holds key until entries
    → Holds key until (redis_del other entries)
unfolding redis_del
other-del key other until [] apart h = cc
other-del key other until (e ∷ es) apart h =
    ground (arith, apart e, other-del key other until es apart)

module _ (user_id step until : ℕ) where
  abbrev pub Burnt : AuthWorld → Type 0
  Burnt w = Holds (totp_used user_id step) until w.redis

  pub challenge-apart :
      (challenge : ℕ) (e : Entry)
      → same_key (totp_used user_id step) e.key ≡ true
      → same_key (totp_challenge challenge) e.key ≡ false
  challenge-apart challenge e h = ground arith

  pub blacklist-apart :
      (jti : ℕ) (e : Entry)
      → same_key (totp_used user_id step) e.key ≡ true
      → same_key (blacklist jti) e.key ≡ false
  blacklist-apart jti e h = ground arith

  pub set-Holds :
      (other : RedisKey) (value ttl now : ℕ) (entries : List Entry)
      → ((e : Entry)
          → same_key (totp_used user_id step) e.key ≡ true
          → same_key other e.key ≡ false)
      → Holds (totp_used user_id step) until entries
      → Holds (totp_used user_id step) until (redis_set other value ttl now entries)
  unfolding redis_set
  set-Holds other value ttl now entries apart h =
      ground (arith, other-del (totp_used user_id step) other until entries apart h)

  used-apart :
      (v t : ℕ) (e : Entry)
      → (v == user_id && t == step) ≡ false
      → same_key (totp_used user_id step) e.key ≡ true
      → same_key (totp_used v t) e.key ≡ false
  used-apart v t e other h = ground arith

  -- An entry that is renewed after it has run out lasts longer.
  renewed :
      (ttl now : ℕ) (entries : List Entry)
      → is_some (redis_get (totp_used user_id step) now entries) ≡ false
      → Holds (totp_used user_id step) until entries
      → Holds (totp_used user_id step) until (redis_set (totp_used user_id step) 1 ttl now entries)
  unfolding redis_set
  renewed ttl now entries absent h = elim (Bool-cases (ltb now until)) [
    | inl early ↦ cc (held-get (totp_used user_id step) until now entries (ground arith) h, absent)
    | inr late ↦ ground arith
  ]

  -- Burning a step again is refused while it lasts, and burning another leaves it.
  pub burn-Burnt : (v t ttl : ℕ) (w : AuthWorld) → Burnt w → Burnt (burn (totp_used v t) ttl w).1
  unfolding burn
  burn-Burnt v t ttl w h = elim (Bool-cases (is_some (redis_get (totp_used v t) w.now w.redis))) [
    | inl present ↦ rw present h
    | inr absent ↦ elim (Bool-cases (v == user_id && t == step)) [
      | inr other ↦
          rw absent (set-Holds (totp_used v t) 1 ttl w.now w.redis (λ e. used-apart v t e other) h)
      | inl same ↦
          let at_user : v ≡ user_id = ground arith in
          let at_step : t ≡ step = ground arith in
          rw (absent, at_user, at_step)
            (renewed ttl w.now w.redis (rw (at_user, at_step) at absent) h)
    ]
  ]
