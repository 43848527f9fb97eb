-- ===== src/Auth.antt =====
-- backend/internal/auth/repository.go, the sessions: families of refresh tokens, their rotation, and
-- the password reset that ends them. Tokens appear only as their SHA-256 hashes, which are numbers, as
-- are identifiers and passwords' hashes; new identifiers are arguments. Each operation is one statement
-- or one transaction, and a failing database leaves the tables, which is not a case of its own.
pub mod Rotation
pub mod Reuse
pub mod Redis
pub mod World
pub mod Service
pub mod Codes
pub mod Keeping
pub mod Histories
pub mod Login
pub mod Steps
pub mod ServiceExamples
pub mod Examples
use nimbus_storage_platform.Base.{
  ℕ, Bool, true, false, not, ◌&&◌, ◌||◌, Option, none, some, List, [], ◌∷◌, map, if◌then◌else◌, ltb,
  ◌==◌, filter, any, find?,
}
use nimbus_storage_platform.Database.Actions.{Result, ok, err, database_error}

pub record RefreshToken : Type 0 where
  pub id : ℕ
  pub user_id : ℕ
  pub family_id : ℕ
  pub token_hash : ℕ
  pub used_at : Option ℕ
  pub expires_at : ℕ

pub record ResetToken : Type 0 where
  pub id : ℕ
  pub user_id : ℕ
  pub token_hash : ℕ
  pub used_at : Option ℕ
  pub expires_at : ℕ

-- A row of users, as far as a reset touches it.
pub record Credential : Type 0 where
  pub user_id : ℕ
  pub password_hash : ℕ

pub record Sessions : Type 0 where
  pub refresh_tokens : List RefreshToken
  pub reset_tokens : List ResetToken
  pub credentials : List Credential

pub data AuthError : Type 0 where
  invalid_refresh invalid_reset_token invalid_credentials user_not_found : AuthError
  totp_already_enabled totp_not_enrolled invalid_totp_code invalid_challenge : AuthError
  invalid_token : AuthError

abbrev pub is_unused : Option ℕ → Bool
is_unused none = true
is_unused (some _) = false

abbrev pub with_hash : ℕ → RefreshToken → Bool
with_hash hash t = t.token_hash == hash

abbrev pub in_family : ℕ → RefreshToken → Bool
in_family family_id t = t.family_id == family_id

abbrev pub set_tokens : List RefreshToken → Sessions → Sessions
set_tokens rows s = record s { refresh_tokens = rows }

-- An INSERT under the unique index on token_hash.
unfoldable pub insert_token : RefreshToken → List RefreshToken → Option (List RefreshToken)
insert_token t rows = if any (with_hash t.token_hash) rows then none else some (t ∷ rows)

abbrev pub stored_or :
    {A : Type 0} → Option (List RefreshToken) → A → Sessions → Result AuthError A × Sessions
stored_or none a s = (database_error, s)
stored_or (some rows) a s = (ok a, set_tokens rows s)

unfoldable pub create_refresh_family :
    ℕ → ℕ → ℕ → ℕ → ℕ → Sessions → Result AuthError (Unit {0}) × Sessions
create_refresh_family id family_id user_id token_hash expires_at s =
    stored_or
      (insert_token
        (record {
          id = id;
          user_id = user_id;
          family_id = family_id;
          token_hash = token_hash;
          used_at = none;
          expires_at = expires_at;
        })
        s.refresh_tokens)
      tt s

abbrev pub mark_used : ℕ → ℕ → RefreshToken → RefreshToken
mark_used id now t = if t.id == id then record t { used_at = some now } else t

-- The successor of a token, in its family.
abbrev pub successor : ℕ → RefreshToken → ℕ → ℕ → RefreshToken
successor id old token_hash expires_at = record {
  id = id;
  user_id = old.user_id;
  family_id = old.family_id;
  token_hash = token_hash;
  used_at = none;
  expires_at = expires_at;
}

-- `DELETE FROM refresh_tokens WHERE family_id = …`.
abbrev pub without_family : ℕ → List RefreshToken → List RefreshToken
without_family family_id = filter (λ t. not (in_family family_id t))

-- What `RotateRefreshToken` does with the row of the old token.
unfoldable pub rotate_row : ℕ → ℕ → RefreshToken → ℕ → ℕ → Sessions → Result AuthError ℕ × Sessions
rotate_row id now old new_hash new_expires_at s =
    if not (is_unused old.used_at)
    then (err invalid_refresh, set_tokens (without_family old.family_id s.refresh_tokens) s)
    else if ltb old.expires_at now
    then (err invalid_refresh, s)
    else stored_or
        (insert_token (successor id old new_hash new_expires_at)
          (map (mark_used old.id now) s.refresh_tokens))
        old.user_id s

abbrev pub rotate_found :
    ℕ → ℕ → Option RefreshToken → ℕ → ℕ → Sessions → Result AuthError ℕ × Sessions
rotate_found id now none new_hash new_expires_at s = (err invalid_refresh, s)
rotate_found id now (some old) new_hash new_expires_at s =
    rotate_row id now old new_hash new_expires_at s

unfoldable pub rotate_refresh_token : ℕ → ℕ → ℕ → ℕ → ℕ → Sessions → Result AuthError ℕ × Sessions
rotate_refresh_token id now old_hash new_hash new_expires_at s =
    rotate_found id now (find? (with_hash old_hash) s.refresh_tokens) new_hash new_expires_at s

-- `RevokeFamilyByTokenHash`: the user of the family, where there is one.
unfoldable pub revoke_family : ℕ → Sessions → Option ℕ × Sessions
revoke_family token_hash s = elim (find? (with_hash token_hash) s.refresh_tokens) [
  | none ↦ (none, s)
  | some t ↦ (some t.user_id, set_tokens (without_family t.family_id s.refresh_tokens) s)
]

abbrev pub reset_with : ℕ → ℕ → ℕ → ResetToken → Sessions → Result AuthError ℕ × Sessions
reset_with now token_hash new_password_hash r s =
    if not (is_unused r.used_at) || ltb r.expires_at now then (err invalid_reset_token, s) else (
      ok r.user_id,
      record {
        refresh_tokens = filter (λ t. not (t.user_id == r.user_id)) s.refresh_tokens;
        reset_tokens =
            map
              (λ (q : ResetToken).
                if q.token_hash == token_hash then record q { used_at = some now } else q)
              s.reset_tokens;
        credentials =
            map
              (λ (c : Credential).
                if c.user_id == r.user_id
                then record c { password_hash = new_password_hash }
                else c)
              s.credentials;
      },
    )

-- `ResetPassword`.
unfoldable pub reset_password : ℕ → ℕ → ℕ → Sessions → Result AuthError ℕ × Sessions
reset_password now token_hash new_password_hash s =
    elim (find? (λ (r : ResetToken). r.token_hash == token_hash) s.reset_tokens) [
      | none ↦ (err invalid_reset_token, s)
      | some r ↦ reset_with now token_hash new_password_hash r s
    ]

-- One operation on the sessions.
pub data Operation : Type 0 where
  login : ℕ → ℕ → ℕ → ℕ → ℕ → Operation
  refresh : ℕ → ℕ → ℕ → ℕ → ℕ → Operation
  logout : ℕ → Operation
  reset : ℕ → ℕ → ℕ → Operation

unfoldable pub operate : Operation → Sessions → Sessions
operate (login id family_id user_id hash expires) s =
    (create_refresh_family id family_id user_id hash expires s).1
operate (refresh id now old_hash new_hash expires) s =
    (rotate_refresh_token id now old_hash new_hash expires s).1
operate (logout hash) s = (revoke_family hash s).1
operate (reset now hash password) s = (reset_password now hash password s).1

-- The sessions after a history of operations, the newest first.
unfoldable pub history : List Operation → Sessions → Sessions
history [] s = s
history (o ∷ os) s = operate o (history os s)
