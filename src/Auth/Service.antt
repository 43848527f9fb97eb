-- ===== src/Auth/Service.antt =====
-- backend/internal/auth/service.go and totp.go: the two-step login, the single use of codes, and the
-- access tokens that a logout blacklists. HMAC (`totp_code`), base32 (`decode`), bcrypt
-- (`verify_password`) and the signature of access tokens (`signed`) are parameters. A time step is
-- counted from one, so that the step before the first has a number. The rows of the audit log, written
-- as a best effort, are left out.
use nimbus_storage_platform.Base.{
  ℕ, suc, ◌+◌, ◌-◌, ◌*◌, ◌/◌, Bool, true, false, not, ◌&&◌, Option, none, some, List, [], ◌∷◌,
  find?, ltb, ◌==◌, if◌then◌else◌,
}
use nimbus_storage_platform.Database.Actions.{Result, ok, err, database_error}
use nimbus_storage_platform.Auth.{
  AuthError, invalid_credentials, user_not_found, totp_already_enabled, invalid_totp_code,
  invalid_challenge, invalid_token, Sessions, Credential, create_refresh_family,
  rotate_refresh_token, revoke_family,
}
use nimbus_storage_platform.Auth.Redis.{
  RedisKey, totp_used, totp_challenge, blacklist, redis_get, redis_del, redis_set,
}
use nimbus_storage_platform.Auth.World.{
  Enrollment, AuthWorld, AuthAction, ◌>>=◌, ◌>>◌, return, refuse_if, reach, asks, or_refuse, fresh,
  is_confirmed, get_totp, create_totp_enrollment, mark_confirmed, delete_totp, totp_period,
  totp_challenge_ttl, AccessToken, TokenPair, LoginResult, tokens, totp_required,
}

-- What the service is configured with, and the cryptography that it calls.
pub record Crypto : Type 0 where
  pub totp_code : ℕ → ℕ → ℕ
  pub decode : ℕ → Option ℕ
  pub verify_password : ℕ → ℕ → Bool
  pub signed : AccessToken → Bool
  pub access_ttl : ℕ
  pub refresh_ttl : ℕ

-- An operation on the tables of refresh tokens.
abbrev pub put_sessions : {A : Type 0} → Result AuthError A × Sessions → AuthAction A
put_sessions (r, s) w = (r, record w { sessions = s })

abbrev pub in_sessions : {A : Type 0} → (Sessions → Result AuthError A × Sessions) → AuthAction A
in_sessions f w = put_sessions (f w.sessions) w

abbrev pub is_some : Option ℕ → Bool
is_some none = false
is_some (some x) = true

-- SETNX: the key, unless it is there.
unfoldable pub burn : RedisKey → ℕ → AuthAction (Unit {0})
burn key ttl w =
    if is_some (redis_get key w.now w.redis)
    then (err invalid_totp_code, w)
    else (ok tt, record w { redis = redis_set key 1 ttl w.now w.redis })

-- A DEL or SET whose error is not looked at.
abbrev pub if_reached :
    Result AuthError (Unit {0}) → (AuthWorld → AuthWorld) → AuthWorld → AuthWorld
if_reached (ok _) change w = change w
if_reached (err _) change w = w
if_reached database_error change w = w

abbrev pub unchecked : (AuthWorld → AuthWorld) → AuthAction (Unit {0})
unchecked change w = (ok tt, if_reached (reach w).0 change (reach w).1)

module _ (crypto : Crypto) where
  -- The loop of `verifyTOTP` over the window.
  unfoldable pub first_match : ℕ → ℕ → List ℕ → Option ℕ
  first_match key code [] = none
  first_match key code (s ∷ ss) =
      if crypto.totp_code key s == code then some s else first_match key code ss

  unfoldable pub verify_totp : ℕ → ℕ → ℕ → Option ℕ
  verify_totp secret code now = elim (crypto.decode secret) [
    | none ↦ none
    | some key ↦
        let current = now / totp_period in
        first_match key code (current ∷ suc current ∷ suc (suc current) ∷ [])
  ]

  -- totpPeriod*(totpSkew+2).
  abbrev pub burn_ttl : ℕ
  burn_ttl = totp_period * 3

  unfoldable pub verify_totp_once : ℕ → ℕ → ℕ → AuthAction (Unit {0})
  verify_totp_once user_id secret code = do
    found ← asks (λ w. verify_totp secret code w.now)
    step ← or_refuse found invalid_totp_code
    reach
    burn (totp_used user_id step) burn_ttl

  abbrev pub issue : ℕ → AuthAction AccessToken
  issue user_id w = (
    ok (record { user_id = user_id; jti = w.next_id; expires_at = w.now + crypto.access_ttl }),
    record w { next_id = suc w.next_id },
  )

  unfoldable pub issue_new_session : ℕ → AuthAction TokenPair
  issue_new_session user_id = do
    access ← issue user_id
    hash ← fresh
    id ← fresh
    family_id ← fresh
    reach
    expires_at ← asks (λ w. w.now + crypto.refresh_ttl)
    in_sessions (create_refresh_family id family_id user_id hash expires_at)
    return (record { access_token = access; refresh_token = hash })

  abbrev pub challenge_user : ℕ → ℕ → AuthWorld → AuthWorld
  challenge_user challenge user_id w = record w {
    redis = redis_set (totp_challenge challenge) user_id totp_challenge_ttl w.now w.redis;
  }

  unfoldable pub issue_challenge : ℕ → AuthAction LoginResult
  issue_challenge user_id = do
    challenge ← fresh
    reach
    (λ w. (ok (totp_required challenge), challenge_user challenge user_id w))

  unfoldable pub refresh : ℕ → AuthAction TokenPair
  refresh hash = do
    new_hash ← fresh
    id ← fresh
    reach
    now ← asks (λ w. w.now)
    user_id ← in_sessions (rotate_refresh_token id now hash new_hash (now + crypto.refresh_ttl))
    access ← issue user_id
    return (record { access_token = access; refresh_token = new_hash })

  unfoldable pub grant : ℕ → AuthAction LoginResult
  grant user_id = issue_new_session user_id >>= λ pair. return (tokens pair)

  -- After the password: a confirmed enrollment asks for the second step.
  abbrev pub second_step :
      ℕ → Result AuthError Enrollment × AuthWorld → Result AuthError LoginResult × AuthWorld
  second_step user_id (ok e, w) =
      if is_confirmed e then issue_challenge user_id w else grant user_id w
  second_step user_id (err e, w) = grant user_id w
  second_step user_id (database_error, w) = (database_error, w)

  abbrev pub has_email : ℕ → ℕ × ℕ → Bool
  has_email email row = row.0 == email

  abbrev pub has_credential : ℕ → ℕ × ℕ → Credential → Bool
  has_credential password row c =
      c.user_id == row.1 && crypto.verify_password c.password_hash password

  unfoldable pub login : ℕ → ℕ → AuthAction LoginResult
  login email password = do
    reach
    row ← asks (λ w. find? (has_email email) w.emails)
    user ← or_refuse row invalid_credentials
    match ← asks (λ w. find? (has_credential password user) w.sessions.credentials)
    _ ← or_refuse match invalid_credentials
    (λ w. second_step user.1 (get_totp user.1 w))

  -- Whatever `GetTOTP` reports, a challenge cannot be met without an enrollment.
  abbrev pub or_challenge :
      Result AuthError Enrollment × AuthWorld → Result AuthError Enrollment × AuthWorld
  or_challenge (ok e, w) = (ok e, w)
  or_challenge (err _, w) = (err invalid_challenge, w)
  or_challenge (database_error, w) = (err invalid_challenge, w)

  unfoldable pub complete_totp_login : ℕ → ℕ → AuthAction TokenPair
  complete_totp_login challenge code = do
    reach
    held ← asks (λ w. redis_get (totp_challenge challenge) w.now w.redis)
    user_id ← or_refuse held invalid_challenge
    e ← (λ w. or_challenge (get_totp user_id w))
    refuse_if (not (is_confirmed e)) invalid_challenge
    verify_totp_once user_id e.secret code
    unchecked (λ w. record w { redis = redis_del (totp_challenge challenge) w.redis })
    issue_new_session user_id

  abbrev pub has_user : ℕ → ℕ × ℕ → Bool
  has_user user_id row = row.1 == user_id

  -- The secret; the URI of the QR code is made of it.
  unfoldable pub setup_totp : ℕ → AuthAction ℕ
  setup_totp user_id = do
    reach
    row ← asks (λ w. find? (has_user user_id) w.emails)
    _ ← or_refuse row user_not_found
    secret ← fresh
    create_totp_enrollment user_id secret
    return secret

  abbrev pub enabled_of :
      Result AuthError Enrollment × AuthWorld → Result AuthError Bool × AuthWorld
  enabled_of (ok e, w) = (ok (is_confirmed e), w)
  enabled_of (err _, w) = (ok false, w)
  enabled_of (database_error, w) = (database_error, w)

  unfoldable pub totp_enabled : ℕ → AuthAction Bool
  totp_enabled user_id w = enabled_of (get_totp user_id w)

  unfoldable pub confirm_totp : ℕ → ℕ → AuthAction (Unit {0})
  confirm_totp user_id code = do
    e ← get_totp user_id
    refuse_if (is_confirmed e) totp_already_enabled
    verify_totp_once user_id e.secret code
    mark_confirmed user_id

  -- A pending enrollment is removed without a code.
  abbrev pub code_if : Bool → AuthAction (Unit {0}) → AuthAction (Unit {0})
  code_if true check w = check w
  code_if false check w = (ok tt, w)

  unfoldable pub disable_totp : ℕ → ℕ → AuthAction (Unit {0})
  disable_totp user_id code = do
    e ← get_totp user_id
    code_if (is_confirmed e) (verify_totp_once user_id e.secret code)
    delete_totp user_id

  -- `verify` of the token issuer: signed under one of its secrets, and not expired.
  abbrev pub is_valid : AccessToken → ℕ → Bool
  is_valid token now = crypto.signed token && ltb now token.expires_at

  abbrev pub blacklisted : AccessToken → AuthWorld → AuthWorld
  blacklisted token w = record w {
    redis = redis_set (blacklist token.jti) 1 (token.expires_at - w.now) w.now w.redis;
  }

  abbrev pub blacklist_if : Bool → AccessToken → AuthAction (Unit {0})
  blacklist_if true token w = unchecked (blacklisted token) w
  blacklist_if false token w = (ok tt, w)

  abbrev pub end_family : Option ℕ → AuthAction (Unit {0})
  end_family none w = (ok tt, w)
  end_family (some hash) w =
      (reach >> λ v. (ok tt, record v { sessions = (revoke_family hash v.sessions).1 })) w

  abbrev pub end_access : Option AccessToken → AuthAction (Unit {0})
  end_access none w = (ok tt, w)
  end_access (some token) w = blacklist_if (is_valid token w.now) token w

  unfoldable pub logout : Option ℕ → Option AccessToken → AuthAction (Unit {0})
  logout refresh_token access_token = end_family refresh_token >> end_access access_token

  unfoldable pub verify_access_token : AccessToken → AuthAction ℕ
  verify_access_token token = do
    valid ← asks (λ w. is_valid token w.now)
    refuse_if (not valid) invalid_token
    reach
    listed ← asks (λ w. is_some (redis_get (blacklist token.jti) w.now w.redis))
    refuse_if listed invalid_token
    return token.user_id
