-- ===== src/Accounts/Sessions.antt =====
-- The statements of onboarding/users.repository.ts on the table `sessions`. The clock is in
-- milliseconds, an expiry in seconds.
use swkoo_kr.Prelude.{
  ℕ, ◌/◌, Bool, not, ◌&&◌, [], ◌∷◌, ◌++◌, if◌then◌else◌, ◌==◌, nat_eq, Result, ok, err, any, keep,
  ltb, leb,
}
use swkoo_kr.Prelude.Texts.{Text, text_eq}
use swkoo_kr.Accounts.Db.{Db, Session, DbError, constraint_unique}

-- `Math.floor(Date.now() / 1000)`
abbrev pub seconds : ℕ → ℕ
seconds now = now / 1000

abbrev pub is_expired : ℕ → Session → Bool
is_expired now s = leb s.expires_at (seconds now)

abbrev pub of_session : Text → Session → Bool
of_session id s = s.id == id

abbrev insert_session : Session → Db → Db × Result DbError (Unit {0})
insert_session s db =
    if any (of_session s.id) db.sessions
    then (db, err constraint_unique)
    else (record db { sessions = db.sessions ++ s ∷ [] }, ok tt)

abbrev pub drop_expired : ℕ → Db → Db
drop_expired now db = record db { sessions = keep (λ s. not (is_expired now s)) db.sessions }

-- The two statements are no transaction: where the second is refused, the first stays.
unfoldable pub create_session : ℕ → Text → ℕ → ℕ → Db → Db × Result DbError (Unit {0})
create_session now id user_id expires_at db =
    insert_session (record { id = id; user_id = user_id; expires_at = expires_at })
      (drop_expired now db)

abbrev pub is_session : ℕ → Text → ℕ → Session → Bool
is_session now id user_id s =
    of_session id s && s.user_id == user_id && ltb (seconds now) s.expires_at

unfoldable pub has_session : ℕ → Text → ℕ → Db → Bool
has_session now id user_id db = any (is_session now id user_id) db.sessions

unfoldable pub revoke_session : Text → Db → Db
revoke_session id db = record db { sessions = keep (λ s. not (of_session id s)) db.sessions }
