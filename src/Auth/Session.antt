-- ===== src/Auth/Session.antt =====
-- The tokens of sessions, and the guard of onboarding/jwt-auth.guard.ts. `jsonwebtoken` is a
-- parameter.
use swkoo_kr.Prelude.{
  ℕ, ◌+◌, ◌*◌, Bool, Option, none, some, [], ◌∷◌, if◌then◌else◌, Result, ok, err,
}
use swkoo_kr.Prelude.Texts.{Text}
use swkoo_kr.Accounts.Db.{Db, DbError}
use swkoo_kr.Accounts.Users.{UserRow, find_by_id}
use swkoo_kr.Accounts.Sessions.{seconds, create_session, has_session, revoke_session}

pub record SessionPayload : Type 0 where
  pub uid : ℕ
  pub login : Text
  pub sid : Text

-- `sign(payload, secret, { expiresIn: '30d' })` at a time, and `verify(token, secret)` at a time.
pub record Jwt : Type 0 where
  pub sign : ℕ → SessionPayload → Text
  pub verify : ℕ → Text → Option SessionPayload

pub data SessionError : Type 0 where
  not_configured : SessionError
  not_stored : DbError → SessionError

abbrev pub thirty_days : ℕ
thirty_days = 30 * 86400

module _ (jwt : Jwt) (has_secret : Bool) (now : ℕ) where
  abbrev pub stored : Text → Db × Result DbError (Unit {0}) → Db × Result SessionError Text
  stored token (db, ok done) = (db, ok token)
  stored token (db, err e) = (db, err (SessionError.not_stored e))

  abbrev pub payload_of : Text → UserRow → SessionPayload
  payload_of sid user = record { uid = user.id; login = user.github_login; sid = sid }

  -- `signSessionToken`; `sid` is of `randomUUID()`.
  unfoldable pub sign_session_token : Text → UserRow → Db → Db × Result SessionError Text
  sign_session_token sid user db =
      if has_secret
      then stored (jwt.sign now (payload_of sid user))
          (create_session now sid user.id (seconds now + thirty_days) db)
      else (db, err SessionError.not_configured)

  abbrev pub known : Db → Option SessionPayload → Option SessionPayload
  known db none = none
  known db (some p) = if has_session now p.sid p.uid db then some p else none

  -- `verifySessionToken`
  unfoldable pub verify_session_token : Text → Db → Option SessionPayload
  verify_session_token token db = if has_secret then known db (jwt.verify now token) else none

  abbrev pub without : Db → Option SessionPayload → Db
  without db none = db
  without db (some p) = revoke_session p.sid db

  -- `revokeSession`
  unfoldable pub revoke : Text → Db → Db
  revoke token db = without db (verify_session_token token db)

  abbrev pub user_of : Db → Option SessionPayload → Option UserRow
  user_of db none = none
  user_of db (some p) = find_by_id p.uid db

  -- `canActivate` of the guard: the user it lets in. An empty cookie is no token.
  unfoldable pub can_activate : Option Text → Db → Option UserRow
  can_activate none db = none
  can_activate (some []) db = none
  can_activate (some (c ∷ token)) db = user_of db (verify_session_token (c ∷ token) db)
