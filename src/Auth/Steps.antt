-- ===== src/Auth/Steps.antt =====
-- The two steps of a login with a second factor, and the end of an access token
-- (backend/internal/auth/service.go).
use nimbus_storage_platform.Base.{
  any, ℕ, ◌≡◌, ◌≢◌, refl, sym, ap, ap₂, ◌∙◌, ◌⊎◌, inl, inr, Bool, true, false, not, Option, none,
  some, List, arith, find?, ltb, Bool-cases,
}
use nimbus_storage_platform.Database.Actions.{Result, ok, err, database_error}
use nimbus_storage_platform.Auth.{AuthError, invalid_totp_code, invalid_token, invalid_challenge}
use nimbus_storage_platform.Auth.Codes.{Holds, held-get}
use nimbus_storage_platform.Auth.Redis.{
  RedisKey, totp_used, totp_challenge, blacklist, redis_get, redis_set,
}
use nimbus_storage_platform.Auth.World.{
  Enrollment, AuthWorld, AuthAction, then_result, ◌>>=◌, or_refuse, refuse_if, reach, AccessToken,
  TokenPair, tokens, has_enrollment, is_confirmed, get_totp,
}
use nimbus_storage_platform.Auth.Service.{
  Crypto, is_some, burn, verify_totp, burn_ttl, verify_totp_once, login, complete_totp_login,
  has_email, issue_challenge, or_challenge, logout, is_valid, verify_access_token,
}

module _ (crypto : Crypto) where
  -- The first step of a user with a confirmed enrollment yields no tokens, whatever else the
  -- request is, and opens no session.
  pub login_needs_code :
      (email password user_id : ℕ) (e : Enrollment) (w : AuthWorld)
      → find? (has_email crypto email) w.emails ≡ some (email, user_id)
      → find? (has_enrollment user_id) w.enrollments ≡ some e
      → is_confirmed e ≡ true
      → ((pair : TokenPair) → (login crypto email password w).0 ≢ ok (tokens pair))
        × ((login crypto email password w).1.sessions ≡ w.sessions)
  unfolding login get_totp reach issue_challenge
  login_needs_code email password user_id e w known enrolled confirmed = (
    λ pair h. ground (arith, known, enrolled, confirmed),
    ground (arith, known, enrolled, confirmed),
  )

  -- The SET of a logout was lost: a call failed, and Redis is as it was.
  abbrev pub IsLost : AuthWorld → AuthWorld → Type 0
  IsLost w v = (any (λ fails. fails) w.faults ≡ true) × (v.redis ≡ w.redis)

  logout-Holds :
      (refresh_token : Option ℕ) (token : AccessToken) (w v : AuthWorld)
      → is_valid crypto token w.now ≡ true
      → logout crypto refresh_token (some token) w ≡ (ok tt, v)
      → Holds (blacklist token.jti) token.expires_at v.redis ⊎ IsLost w v
  unfolding logout reach redis_set
  logout-Holds none token w v valid out = ground (arith, valid)
  logout-Holds (some hash) token w v valid out = ground (arith, valid)

  refused :
      (token : AccessToken) (u : AuthWorld)
      → is_some (redis_get (blacklist token.jti) u.now u.redis) ≡ true
      → ((verify_access_token crypto token u).0 ≡ err invalid_token)
        ⊎ ((verify_access_token crypto token u).0 ≡ database_error)
  unfolding verify_access_token reach
  refused token u listed = ground (arith, listed)

  expired :
      (token : AccessToken) (u : AuthWorld)
      → ltb u.now token.expires_at ≡ false
      → ((verify_access_token crypto token u).0 ≡ err invalid_token)
        ⊎ ((verify_access_token crypto token u).0 ≡ database_error)
  unfolding verify_access_token reach
  expired token u late = ground (arith, late)

  -- A successful logout with a valid access token has ended it, where nothing but time passes and
  -- connections fail afterwards: at no later time is the token accepted. The one exception is a
  -- logout whose SET was lost, whose error the code does not look at.
  pub logout_ends_access :
      (refresh_token : Option ℕ) (token : AccessToken) (w v : AuthWorld) (later : ℕ)
      (faults : List Bool)
      → is_valid crypto token w.now ≡ true
      → logout crypto refresh_token (some token) w ≡ (ok tt, v)
      → let u = record v { now = later; faults = faults } in
        (((verify_access_token crypto token u).0 ≡ err invalid_token)
          ⊎ ((verify_access_token crypto token u).0 ≡ database_error))
        ⊎ IsLost w v
  logout_ends_access refresh_token token w v later faults valid out =
      elim (Bool-cases (ltb later token.expires_at)) [
        | inl early ↦ elim (logout-Holds refresh_token token w v valid out) [
          | inl listed ↦ inl (
              refused token (record v { now = later; faults = faults })
                (held-get (blacklist token.jti) token.expires_at later v.redis (ground arith)
                  listed))
          | inr lost ↦ inr lost
        ]
        | inr late ↦ inl (expired token (record v { now = later; faults = faults }) late)
      ]

  then-ok :
      {A B : Type 0} (first : AuthAction A) (next : A → AuthAction B) (w : AuthWorld) {b : B}
      {v : AuthWorld}
      → (first >>= next) w ≡ (ok b, v)
      → (a : A) × (u : AuthWorld) × (first w ≡ (ok a, u)) × (next a u ≡ (ok b, v))
  then-ok {A} {B} first next w {b} {v} h = go (first w).0 (first w).1 refl h
    where
      go :
          (r : Result AuthError A) (u : AuthWorld)
          → first w ≡ (r, u)
          → then_result (r, u) next ≡ (ok b, v)
          → (a : A) × (u' : AuthWorld) × (first w ≡ (ok a, u')) × (next a u' ≡ (ok b, v))
      go (ok a) u e k = (a, u, e, k)
      go (err x) u e k = cc
      go database_error u e k = cc

  -- What the second step has established when it yields tokens.
  pub record IsProven (challenge code : ℕ) (w : AuthWorld) : Type 0 where
    pub user_id : ℕ
    pub enrollment : Enrollment
    pub step : ℕ
    pub challenged : redis_get (totp_challenge challenge) w.now w.redis ≡ some user_id
    pub enrolled : find? (has_enrollment user_id) w.enrollments ≡ some enrollment
    pub confirmed : is_confirmed enrollment ≡ true
    pub matched : verify_totp crypto enrollment.secret code w.now ≡ some step
    pub unused : is_some (redis_get (totp_used user_id step) w.now w.redis) ≡ false

  -- Apart from its failures ahead.
  abbrev pub SameAuth : AuthWorld → AuthWorld → Type 0
  SameAuth v w = (v.redis ≡ w.redis) × (v.enrollments ≡ w.enrollments) × (v.now ≡ w.now)

  reach-SameAuth : (w : AuthWorld) {v : AuthWorld} → reach w ≡ (ok tt, v) → SameAuth v w
  unfolding reach
  reach-SameAuth w h = ground arith

  held-ok :
      {A : Type 0} (row : Option A) (e : AuthError) (w : AuthWorld) {a : A} {v : AuthWorld}
      → or_refuse row e w ≡ (ok a, v)
      → (row ≡ some a) × (v ≡ w)
  held-ok row e w h = ground arith

  or_challenge-ok :
      (user_id : ℕ) (w : AuthWorld) {e : Enrollment} {v : AuthWorld}
      → or_challenge crypto (get_totp user_id w) ≡ (ok e, v)
      → (find? (has_enrollment user_id) w.enrollments ≡ some e) × SameAuth v w
  unfolding get_totp reach
  or_challenge-ok user_id w h = ground arith

  passes :
      (bad : Bool) (e : AuthError) (w : AuthWorld) {v : AuthWorld}
      → refuse_if bad e w ≡ (ok tt, v)
      → (bad ≡ false) × (v ≡ w)
  passes bad e w h = ground arith

  unburnt :
      (user_id s : ℕ) (x : AuthWorld) {v : AuthWorld}
      → burn (totp_used user_id s) (burn_ttl crypto) x ≡ (ok tt, v)
      → is_some (redis_get (totp_used user_id s) x.now x.redis) ≡ false
  unfolding burn
  unburnt user_id s x h = ground arith

  still :
      (key : RedisKey) (v w : AuthWorld)
      → SameAuth v w
      → redis_get key v.now v.redis ≡ redis_get key w.now w.redis
  still key v w (redis, _, now) = ap₂ (λ t es. redis_get key t es) now redis

  verify_totp_once-ok :
      (user_id secret code : ℕ) (w : AuthWorld) {v : AuthWorld}
      → verify_totp_once crypto user_id secret code w ≡ (ok tt, v)
      → (s : ℕ) × (verify_totp crypto secret code w.now ≡ some s)
        × (is_some (redis_get (totp_used user_id s) w.now w.redis) ≡ false)
  unfolding verify_totp_once
  verify_totp_once-ok user_id secret code w h =
      let (s, u, found, rest) =
        then-ok (or_refuse (verify_totp crypto secret code w.now) invalid_totp_code) _ w h in
      let (matched, same) =
        held-ok (verify_totp crypto secret code w.now) invalid_totp_code w found in
      let (_, x, reached, burns) = then-ok reach _ u rest in
      let here = ap (λ y. redis_get (totp_used user_id s) y.now y.redis) same in
      (
        s,
        matched,
        ap is_some (sym (still (totp_used user_id s) x u (reach-SameAuth u reached) ∙ here))
            ∙ unburnt user_id s x burns,
      )

  proven :
      (challenge code user_id s : ℕ) (e : Enrollment) (w w₁ w₂ w₃ w₄ : AuthWorld)
      → SameAuth w₁ w
      → redis_get (totp_challenge challenge) w₁.now w₁.redis ≡ some user_id
      → w₂ ≡ w₁
      → find? (has_enrollment user_id) w₂.enrollments ≡ some e
      → SameAuth w₃ w₂
      → not (is_confirmed e) ≡ false
      → w₄ ≡ w₃
      → verify_totp crypto e.secret code w₄.now ≡ some s
      → is_some (redis_get (totp_used user_id s) w₄.now w₄.redis) ≡ false
      → IsProven challenge code w
  proven challenge code user_id s e w w₁ w₂ w₃ w₄ same₁ challenged at₂ enrolled same₃ unrefused at₄
        matched unused =
      let (redis₁, rows₁, now₁) = same₁ in
      let (redis₃, rows₃, now₃) = same₃ in
      let now₄ : w₄.now ≡ w.now = ap (λ x. x.now) at₄ ∙ (now₃ ∙ (ap (λ x. x.now) at₂ ∙ now₁)) in
      let redis₄ : w₄.redis ≡ w.redis =
        ap (λ x. x.redis) at₄ ∙ (redis₃ ∙ (ap (λ x. x.redis) at₂ ∙ redis₁)) in
      let rows₂ : w₂.enrollments ≡ w.enrollments = ap (λ x. x.enrollments) at₂ ∙ rows₁ in
      record {
        user_id = user_id;
        enrollment = e;
        step = s;
        challenged = sym (still (totp_challenge challenge) w₁ w same₁) ∙ challenged;
        enrolled = ap (find? (has_enrollment user_id)) (sym rows₂) ∙ enrolled;
        confirmed = ground arith;
        matched = ap (verify_totp crypto e.secret code) (sym now₄) ∙ matched;
        unused =
            ap₂ (λ t es. is_some (redis_get (totp_used user_id s) t es)) (sym now₄) (sym redis₄)
            ∙ unused;
      }

  -- Tokens come out of the second step only for a challenge that was issued to the user and still
  -- lasts, a confirmed enrollment of the user, and a code of the window whose time step is unused.
  pub complete_totp_login-IsProven :
      (challenge code : ℕ) (w : AuthWorld) {pair : TokenPair} {v : AuthWorld}
      → complete_totp_login crypto challenge code w ≡ (ok pair, v)
      → IsProven challenge code w
  unfolding complete_totp_login
  complete_totp_login-IsProven challenge code w h =
      let (_, w₁, reached, h₁) = then-ok reach _ w h in
      let same₁ = reach-SameAuth w reached in
      let held = redis_get (totp_challenge challenge) w₁.now w₁.redis in
      let (user_id, w₂, found, h₂) = then-ok (or_refuse held invalid_challenge) _ w₁ h₁ in
      let (challenged, at₂) = held-ok held invalid_challenge w₁ found in
      let (e, w₃, got, h₃) = then-ok (λ u. or_challenge crypto (get_totp user_id u)) _ w₂ h₂ in
      let (enrolled, same₃) = or_challenge-ok user_id w₂ got in
      let (_, w₄, checked, h₄) =
        then-ok (refuse_if (not (is_confirmed e)) invalid_challenge) _ w₃ h₃ in
      let (unrefused, at₄) = passes (not (is_confirmed e)) invalid_challenge w₃ checked in
      let (_, w₅, verified, _) = then-ok (verify_totp_once crypto user_id e.secret code) _ w₄ h₄ in
      let (s, matched, unused) = verify_totp_once-ok user_id e.secret code w₄ verified in
      proven challenge code user_id s e w w₁ w₂ w₃ w₄ same₁ challenged at₂ enrolled same₃ unrefused
        at₄ matched unused
