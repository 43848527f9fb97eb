-- ===== src/Auth/Redis.antt =====
-- The Redis of backend/internal/auth/service.go: keys with a time to live, which burn codes, hold login
-- challenges and blacklist access tokens. Times are in nanoseconds, on one clock.
use nimbus_storage_platform.Base.{
  ℕ, ◌+◌, Bool, false, not, ◌&&◌, Option, none, some, List, ◌∷◌, filter, find?, ltb, ◌==◌,
}

-- nimbus:totp:used:<user>:<step>, nimbus:totp:challenge:<hash>, nimbus:blacklist:<jti>.
pub data RedisKey : Type 0 where
  totp_used : ℕ → ℕ → RedisKey
  totp_challenge : ℕ → RedisKey
  blacklist : ℕ → RedisKey

abbrev pub same_key : RedisKey → RedisKey → Bool
same_key (totp_used u s) (totp_used v t) = u == v && s == t
same_key (totp_used u s) (totp_challenge h) = false
same_key (totp_used u s) (blacklist j) = false
same_key (totp_challenge g) (totp_used v t) = false
same_key (totp_challenge g) (totp_challenge h) = g == h
same_key (totp_challenge g) (blacklist j) = false
same_key (blacklist i) (totp_used v t) = false
same_key (blacklist i) (totp_challenge h) = false
same_key (blacklist i) (blacklist j) = i == j

pub record Entry : Type 0 where
  pub key : RedisKey
  pub value : ℕ
  pub expires_at : ℕ

abbrev pub is_held : RedisKey → ℕ → Entry → Bool
is_held key now e = same_key key e.key && ltb now e.expires_at

-- GET: the value, until it expires.
unfoldable pub redis_get : RedisKey → ℕ → List Entry → Option ℕ
redis_get key now entries = elim (find? (is_held key now) entries) [
  | none ↦ none
  | some e ↦ some e.value
]

-- DEL.
unfoldable pub redis_del : RedisKey → List Entry → List Entry
redis_del key entries = filter (λ e. not (same_key key e.key)) entries

-- SET with a time to live.
unfoldable pub redis_set : RedisKey → ℕ → ℕ → ℕ → List Entry → List Entry
redis_set key value ttl now entries =
    record { key = key; value = value; expires_at = now + ttl } ∷ redis_del key entries
