-- ===== src/Auth/Histories.antt =====
-- The operations of backend/internal/auth/service.go, one after the other, and the burnt time steps that
-- they leave in Redis.
use nimbus_storage_platform.Base.{
  ℕ, suc, ◌-◌, ◌+◌, Bool, true, false, not, Option, none, some, find?, if◌then◌else◌,
}
use nimbus_storage_platform.Database.Actions.{Result, ok, err, database_error}
use nimbus_storage_platform.Auth.{
  AuthError, user_not_found, invalid_credentials, invalid_totp_code, totp_already_enabled,
  invalid_challenge, Sessions, create_refresh_family, rotate_refresh_token,
}
use nimbus_storage_platform.Auth.Redis.{totp_used, totp_challenge, blacklist, redis_get, redis_del}
use nimbus_storage_platform.Auth.World.{
  Enrollment, AuthWorld, AuthAction, ◌>>◌, return, refuse_if, reach, or_refuse, is_confirmed,
  get_totp, create_totp_enrollment, mark_confirmed, delete_totp, totp_challenge_ttl, AccessToken,
  TokenPair, tokens, totp_required,
}
use nimbus_storage_platform.Auth.Service.{
  Crypto, in_sessions, burn, unchecked, verify_totp, burn_ttl, verify_totp_once, issue_new_session,
  challenge_user, issue_challenge, grant, second_step, has_email, has_credential, login,
  or_challenge, complete_totp_login, confirm_totp, code_if, disable_totp, is_valid, blacklisted,
  blacklist_if, end_family, end_access, logout, refresh, setup_totp, has_user,
}
use nimbus_storage_platform.Auth.Codes.{
  Burnt, set-Holds, other-del, challenge-apart, blacklist-apart, burn-Burnt,
}
use nimbus_storage_platform.Auth.Keeping.{
  Keeps, reach-Keeps, refuse_if-Keeps, or_refuse-Keeps, get_totp-Keeps, unchecked-Keeps,
  mark_confirmed-Keeps, delete_totp-Keeps, create_totp_enrollment-Keeps, >>=-Keeps, >>-Keeps,
}

module _ (user_id step until : ℕ) where
  module _ (crypto : Crypto) where
    verify_totp_once-Keeps :
        (u secret code : ℕ) → Keeps user_id step until (verify_totp_once crypto u secret code)
    unfolding verify_totp_once
    verify_totp_once-Keeps u secret code w =
        (>>=-Keeps user_id step until)
          (or_refuse (verify_totp crypto secret code w.now) invalid_totp_code)
          (λ t. reach >> burn (totp_used u t) (burn_ttl crypto))
          ((or_refuse-Keeps user_id step until) (verify_totp crypto secret code w.now)
            invalid_totp_code)
          (λ t.
            (>>-Keeps user_id step until) reach (burn (totp_used u t) (burn_ttl crypto))
              (reach-Keeps user_id step until)
              (burn-Burnt user_id step until u t (burn_ttl crypto)))
          w

    in_sessions-Keeps :
        {A : Type 0} (f : Sessions → Result AuthError A × Sessions)
        → Keeps user_id step until (in_sessions f)
    in_sessions-Keeps f w h = h

    issue_new_session-Keeps : (u : ℕ) → Keeps user_id step until (issue_new_session crypto u)
    unfolding issue_new_session
    issue_new_session-Keeps u w =
        let access : AccessToken = record {
          user_id = u;
          jti = w.next_id;
          expires_at = w.now + crypto.access_ttl;
        } in
        let hash = suc w.next_id in
        let create : AuthWorld → Sessions → Result AuthError (Unit {0}) × Sessions = λ v.
          create_refresh_family (suc hash) (suc (suc hash)) u hash (v.now + crypto.refresh_ttl) in
        let pair : TokenPair = record { access_token = access; refresh_token = hash } in
        λ h.
          (>>-Keeps user_id step until) reach (λ v. (in_sessions (create v) >> return pair) v)
            (reach-Keeps user_id step until)
            (λ v k.
              (>>-Keeps user_id step until) (in_sessions (create v)) (return pair)
                (in_sessions-Keeps (create v)) (λ x l. l) v k)
            (record w { next_id = suc (suc (suc (suc w.next_id))) }) h

    pub refresh-Keeps : (hash : ℕ) → Keeps user_id step until (refresh crypto hash)
    unfolding refresh
    refresh-Keeps hash w =
        (>>-Keeps user_id step until) reach _ (reach-Keeps user_id step until)
          (λ v.
            (>>=-Keeps user_id step until)
              (in_sessions (
                rotate_refresh_token (suc w.next_id) v.now hash w.next_id
                  (v.now + crypto.refresh_ttl)))
              _ (λ x k. k) (λ u x k. k) v)
          (record w { next_id = suc (suc w.next_id) })

    pub setup_totp-Keeps : (u : ℕ) → Keeps user_id step until (setup_totp crypto u)
    unfolding setup_totp
    setup_totp-Keeps u = (>>-Keeps user_id step until) reach _ (reach-Keeps user_id step until) λ w.
        let row = find? (has_user crypto u) w.emails in
        (>>=-Keeps user_id step until) (or_refuse row user_not_found) _
          ((or_refuse-Keeps user_id step until) row user_not_found)
          (λ _ v.
            (>>-Keeps user_id step until) (create_totp_enrollment u v.next_id) (return v.next_id)
              ((create_totp_enrollment-Keeps user_id step until) u v.next_id) (λ x k. k)
              (record v { next_id = suc v.next_id }))
          w

    challenge_user-Burnt :
        (challenge u : ℕ) (w : AuthWorld)
        → Burnt user_id step until w
        → Burnt user_id step until (challenge_user crypto challenge u w)
    challenge_user-Burnt challenge u w h =
        set-Holds user_id step until (totp_challenge challenge) u totp_challenge_ttl w.now w.redis
          (challenge-apart user_id step until challenge) h

    issue_challenge-Keeps : (u : ℕ) → Keeps user_id step until (issue_challenge crypto u)
    unfolding issue_challenge
    issue_challenge-Keeps u w =
        (>>-Keeps user_id step until) reach
          (λ v. (ok (totp_required w.next_id), challenge_user crypto w.next_id u v))
          (reach-Keeps user_id step until) (challenge_user-Burnt w.next_id u)
          (record w { next_id = suc w.next_id })

    grant-Keeps : (u : ℕ) → Keeps user_id step until (grant crypto u)
    unfolding grant
    grant-Keeps u =
        (>>=-Keeps user_id step until) (issue_new_session crypto u) (λ pair. return (tokens pair))
          (issue_new_session-Keeps u) (λ pair w h. h)

    by_enrollment-Burnt :
        (confirmed : Bool) (u : ℕ) (w : AuthWorld)
        → Burnt user_id step until w
        → Burnt user_id step until
            (if confirmed then issue_challenge crypto u w else grant crypto u w).1
    by_enrollment-Burnt true u w h = issue_challenge-Keeps u w h
    by_enrollment-Burnt false u w h = grant-Keeps u w h

    second_step-Burnt :
        (u : ℕ) (r : Result AuthError Enrollment) (w : AuthWorld)
        → Burnt user_id step until w
        → Burnt user_id step until (second_step crypto u (r, w)).1
    second_step-Burnt u (ok e) w h = by_enrollment-Burnt (is_confirmed e) u w h
    second_step-Burnt u (err e) w h = grant-Keeps u w h
    second_step-Burnt u database_error w h = h

    pub login-Keeps : (email password : ℕ) → Keeps user_id step until (login crypto email password)
    unfolding login
    login-Keeps email password =
        (>>-Keeps user_id step until) reach _ (reach-Keeps user_id step until) λ w.
          (>>=-Keeps user_id step until)
            (or_refuse (find? (has_email crypto email) w.emails) invalid_credentials) _
            ((or_refuse-Keeps user_id step until) (find? (has_email crypto email) w.emails)
              invalid_credentials)
            (λ user v.
              let found = find? (has_credential crypto password user) v.sessions.credentials in
              (>>=-Keeps user_id step until) (or_refuse found invalid_credentials)
                (λ _ x. second_step crypto user.1 (get_totp user.1 x))
                ((or_refuse-Keeps user_id step until) found invalid_credentials)
                (λ _ x k.
                  second_step-Burnt user.1 (get_totp user.1 x).0 (get_totp user.1 x).1
                    ((get_totp-Keeps user_id step until) user.1 x k))
                v)
            w

    or_challenge-Burnt :
        (r : Result AuthError Enrollment) (w : AuthWorld)
        → Burnt user_id step until w
        → Burnt user_id step until (or_challenge crypto (r, w)).1
    or_challenge-Burnt (ok e) w h = h
    or_challenge-Burnt (err e) w h = h
    or_challenge-Burnt database_error w h = h

    forget_challenge-Keeps :
        (challenge : ℕ)
        → Keeps user_id step until
            (unchecked (λ w. record w { redis = redis_del (totp_challenge challenge) w.redis }))
    forget_challenge-Keeps challenge = (unchecked-Keeps user_id step until) _ (λ v h.
        other-del (totp_used user_id step) (totp_challenge challenge) until v.redis
          (challenge-apart user_id step until challenge) h)

    pub complete_totp_login-Keeps :
        (challenge code : ℕ) → Keeps user_id step until (complete_totp_login crypto challenge code)
    unfolding complete_totp_login
    complete_totp_login-Keeps challenge code =
        (>>-Keeps user_id step until) reach _ (reach-Keeps user_id step until) λ w.
          let held = redis_get (totp_challenge challenge) w.now w.redis in
          (>>=-Keeps user_id step until) (or_refuse held invalid_challenge) _
            ((or_refuse-Keeps user_id step until) held invalid_challenge)
            (λ u.
              (>>=-Keeps user_id step until) (λ v. or_challenge crypto (get_totp u v)) _
                (λ v k.
                  or_challenge-Burnt (get_totp u v).0 (get_totp u v).1
                    ((get_totp-Keeps user_id step until) u v k))
                (λ e.
                  (>>-Keeps user_id step until) (refuse_if (not (is_confirmed e)) invalid_challenge)
                    _
                    ((refuse_if-Keeps user_id step until) (not (is_confirmed e)) invalid_challenge)
                    ((>>-Keeps user_id step until) (verify_totp_once crypto u e.secret code) _
                      (verify_totp_once-Keeps u e.secret code)
                      ((>>-Keeps user_id step until)
                        (unchecked
                          (λ x. record x { redis = redis_del (totp_challenge challenge) x.redis }))
                        (issue_new_session crypto u) (forget_challenge-Keeps challenge)
                        (issue_new_session-Keeps u)))))
            w

    pub confirm_totp-Keeps : (u code : ℕ) → Keeps user_id step until (confirm_totp crypto u code)
    unfolding confirm_totp
    confirm_totp-Keeps u code =
        (>>=-Keeps user_id step until) (get_totp u) _ ((get_totp-Keeps user_id step until) u) λ e.
          (>>-Keeps user_id step until) (refuse_if (is_confirmed e) totp_already_enabled) _
            ((refuse_if-Keeps user_id step until) (is_confirmed e) totp_already_enabled)
            ((>>-Keeps user_id step until) (verify_totp_once crypto u e.secret code)
              (mark_confirmed u) (verify_totp_once-Keeps u e.secret code)
              ((mark_confirmed-Keeps user_id step until) u))

    code_if-Keeps :
        (on : Bool) (check : AuthAction (Unit {0}))
        → Keeps user_id step until check
        → Keeps user_id step until (code_if crypto on check)
    code_if-Keeps true check k = k
    code_if-Keeps false check k = λ w h. h

    pub disable_totp-Keeps : (u code : ℕ) → Keeps user_id step until (disable_totp crypto u code)
    unfolding disable_totp
    disable_totp-Keeps u code =
        (>>=-Keeps user_id step until) (get_totp u) _ ((get_totp-Keeps user_id step until) u) λ e.
          (>>-Keeps user_id step until)
            (code_if crypto (is_confirmed e) (verify_totp_once crypto u e.secret code))
            (delete_totp u)
            (code_if-Keeps (is_confirmed e) (verify_totp_once crypto u e.secret code)
              (verify_totp_once-Keeps u e.secret code))
            ((delete_totp-Keeps user_id step until) u)

    blacklist_if-Keeps :
        (on : Bool) (token : AccessToken) → Keeps user_id step until (blacklist_if crypto on token)
    blacklist_if-Keeps true token =
        (unchecked-Keeps user_id step until) (blacklisted crypto token) (λ v h.
          set-Holds user_id step until (blacklist token.jti) 1 (token.expires_at - v.now) v.now
            v.redis (blacklist-apart user_id step until token.jti) h)
    blacklist_if-Keeps false token = λ w h. h

    end_access-Keeps :
        (token : Option AccessToken) → Keeps user_id step until (end_access crypto token)
    end_access-Keeps none w h = h
    end_access-Keeps (some token) w h = blacklist_if-Keeps (is_valid crypto token w.now) token w h

    end_family-Keeps : (hash : Option ℕ) → Keeps user_id step until (end_family crypto hash)
    end_family-Keeps none = λ w h. h
    end_family-Keeps (some hash) =
        (>>-Keeps user_id step until) reach _ (reach-Keeps user_id step until) (λ w h. h)

    pub logout-Keeps :
        (hash : Option ℕ) (token : Option AccessToken)
        → Keeps user_id step until (logout crypto hash token)
    unfolding logout
    logout-Keeps hash token =
        (>>-Keeps user_id step until) (end_family crypto hash) (end_access crypto token)
          (end_family-Keeps hash) (end_access-Keeps token)
