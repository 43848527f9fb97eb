-- ===== src/Auth/Login.antt =====
-- Histories of the operations of backend/internal/auth/service.go: what a code, a challenge and an access
-- token are still good for.
use nimbus_storage_platform.Base.{
  ℕ, suc, ◌+◌, ◌/◌, ◌≤◌, ◌<◌, ◌≡◌, ◌⊎◌, Bool, true, Option, some, List, arith,
}
use nimbus_storage_platform.Database.Actions.{ok, err, database_error}
use nimbus_storage_platform.Auth.{invalid_totp_code}
use nimbus_storage_platform.Auth.Redis.{totp_used, redis_get, redis_set}
use nimbus_storage_platform.Auth.World.{AuthWorld, reach, totp_period, AccessToken}
use nimbus_storage_platform.Auth.Service.{
  Crypto, is_some, burn, first_match, verify_totp, burn_ttl, verify_totp_once, login,
  complete_totp_login, confirm_totp, disable_totp, setup_totp, refresh, logout,
}
use nimbus_storage_platform.Auth.Codes.{Burnt, held-get}
use nimbus_storage_platform.Auth.Histories.{
  login-Keeps, complete_totp_login-Keeps, confirm_totp-Keeps, disable_totp-Keeps, logout-Keeps,
  setup_totp-Keeps, refresh-Keeps,
}

pub data AuthRequest : Type 0 where
  log_in finish_login : ℕ → ℕ → AuthRequest
  set_up refresh_with : ℕ → AuthRequest
  confirm disable : ℕ → ℕ → AuthRequest
  log_out : Option ℕ → Option AccessToken → AuthRequest

module _ (crypto : Crypto) where
  unfoldable pub serve : AuthRequest → AuthWorld → AuthWorld
  serve (log_in email password) w = (login crypto email password w).1
  serve (finish_login challenge code) w = (complete_totp_login crypto challenge code w).1
  serve (set_up user_id) w = (setup_totp crypto user_id w).1
  serve (confirm user_id code) w = (confirm_totp crypto user_id code w).1
  serve (disable user_id code) w = (disable_totp crypto user_id code w).1
  serve (log_out refresh_token access_token) w = (logout crypto refresh_token access_token w).1
  serve (refresh_with hash) w = (refresh crypto hash w).1

  -- The histories of the service: requests, and in between any time, lost connections and fresh
  -- identifiers.
  pub data Serves : AuthWorld → AuthWorld → Type 0 where
    done : (w : AuthWorld) → Serves w w
    step : {w v : AuthWorld} (request : AuthRequest) → Serves (serve request w) v → Serves w v
    wait :
        {w v : AuthWorld} (now next_id : ℕ) (faults : List Bool)
        → Serves (record w { now = now; next_id = next_id; faults = faults }) v
        → Serves w v

  serve-Burnt :
      (user_id s until : ℕ) (request : AuthRequest) (w : AuthWorld)
      → Burnt user_id s until w
      → Burnt user_id s until (serve request w)
  unfolding serve
  serve-Burnt user_id s until (log_in email password) =
      login-Keeps user_id s until crypto email password
  serve-Burnt user_id s until (finish_login challenge code) =
      complete_totp_login-Keeps user_id s until crypto challenge code
  serve-Burnt user_id s until (set_up u) = setup_totp-Keeps user_id s until crypto u
  serve-Burnt user_id s until (confirm u code) = confirm_totp-Keeps user_id s until crypto u code
  serve-Burnt user_id s until (disable u code) = disable_totp-Keeps user_id s until crypto u code
  serve-Burnt user_id s until (log_out hash token) = logout-Keeps user_id s until crypto hash token
  serve-Burnt user_id s until (refresh_with hash) = refresh-Keeps user_id s until crypto hash

  Serves-Burnt :
      (user_id s until : ℕ) {w v : AuthWorld}
      → Serves w v
      → Burnt user_id s until w
      → Burnt user_id s until v
  Serves-Burnt user_id s until (done w) h = h
  Serves-Burnt user_id s until (step {w} request rest) h =
      Serves-Burnt user_id s until rest (serve-Burnt user_id s until request w h)
  Serves-Burnt user_id s until (wait now next_id faults rest) h =
      Serves-Burnt user_id s until rest h

  -- A code that is accepted belongs to the step before, the current or the next one.
  verify_totp-window :
      (secret code now s : ℕ)
      → verify_totp crypto secret code now ≡ some s
      → (now / totp_period ≤ s) × (s ≤ suc (suc (now / totp_period)))
  unfolding verify_totp first_match
  verify_totp-window secret code now s h = ground arith

  -- The life of a burnt step covers every time at which its code could come again.
  window-covered :
      (t t' s : ℕ)
      → s ≤ suc (suc (t / totp_period))
      → t' / totp_period ≤ s
      → t' < t + burn_ttl crypto
  window-covered t t' s first again = omega arith

  verify_totp_once-Burnt :
      (user_id secret code s : ℕ) (w : AuthWorld) {v : AuthWorld}
      → verify_totp crypto secret code w.now ≡ some s
      → verify_totp_once crypto user_id secret code w ≡ (ok tt, v)
      → Burnt user_id s (w.now + burn_ttl crypto) v
  unfolding verify_totp_once burn redis_set reach
  verify_totp_once-Burnt user_id secret code s w matched h = ground (arith, matched)

  burn_refused :
      (user_id secret code s : ℕ) (w : AuthWorld)
      → verify_totp crypto secret code w.now ≡ some s
      → is_some (redis_get (totp_used user_id s) w.now w.redis) ≡ true
      → ((verify_totp_once crypto user_id secret code w).0 ≡ err invalid_totp_code)
        ⊎ ((verify_totp_once crypto user_id secret code w).0 ≡ database_error)
  unfolding verify_totp_once burn reach
  burn_refused user_id secret code s w matched held = ground (arith, matched, held)

  -- A time step of a user's codes is good once: after a code of it has been accepted, in any history
  -- of requests, no code of that step is accepted again, under the same or another secret.
  pub verify_totp_once_burns :
      (user_id secret code secret' code' s : ℕ) (w v u : AuthWorld)
      → verify_totp crypto secret code w.now ≡ some s
      → verify_totp_once crypto user_id secret code w ≡ (ok tt, v)
      → Serves v u
      → verify_totp crypto secret' code' u.now ≡ some s
      → ((verify_totp_once crypto user_id secret' code' u).0 ≡ err invalid_totp_code)
        ⊎ ((verify_totp_once crypto user_id secret' code' u).0 ≡ database_error)
  verify_totp_once_burns user_id secret code secret' code' s w v u matched accepted served again =
      let until = w.now + burn_ttl crypto in
      let burnt =
        Serves-Burnt user_id s until served
          (verify_totp_once-Burnt user_id secret code s w matched accepted) in
      let in_time =
        window-covered w.now u.now s (verify_totp-window secret code w.now s matched).1
          (verify_totp-window secret' code' u.now s again).0 in
      burn_refused user_id secret' code' s u again
        (held-get (totp_used user_id s) until u.now u.redis in_time burnt)
