-- ===== src/Auth/Guarded.antt =====
-- The guard and the tokens of sessions: whom a token lets in, and until when.
use swkoo_kr.Prelude.{
  ℕ, ◌+◌, ◌≤◌, ◌≡◌, refl, ◌∙◌, true, false, none, some, [], ◌∷◌, ◌==◌, nat_eq, arith, if◌then◌else◌,
  any, ltb, inl, inr, Bool-cases, Result, ok, err,
}
use swkoo_kr.Prelude.Texts.{Text, text_eq, text_beq}
use swkoo_kr.Accounts.Db.{Db, DbError}
use swkoo_kr.Accounts.Users.{UserRow, find_by_id}
use swkoo_kr.Accounts.Sessions.{seconds, create_session, has_session, of_session}
use swkoo_kr.Accounts.Access.{create_session-lets_in}
use swkoo_kr.Auth.Session.{
  SessionPayload, Jwt, thirty_days, payload_of, sign_session_token, known, verify_session_token,
  revoke, user_of, can_activate, stored,
}

-- What `jsonwebtoken` documents: a token is verified with the payload it was signed with, before
-- thirty days have passed in whole seconds, and not from then on.
pub record IsJwt (jwt : Jwt) : Type 0 where
  pub filled : (now : ℕ) (p : SessionPayload) → (jwt.sign now p == []) ≡ false
  pub verifies :
      (now later : ℕ) (p : SessionPayload)
      → jwt.verify later (jwt.sign now p)
        ≡ (if ltb (seconds later) (seconds now + thirty_days) then some p else none)

create_session-users :
    (now : ℕ) (id : Text) (user_id expires_at : ℕ) (db : Db)
    → (create_session now id user_id expires_at db).0.users ≡ db.users
unfolding create_session
create_session-users now id user_id expires_at db = ground arith

stored-ok :
    (jwt : Jwt) (now : ℕ) (token : Text) (r : Db × Result DbError (Unit {0}))
    → r.1 ≡ ok tt
    → stored jwt true now token r ≡ (r.0, ok token)
stored-ok jwt now token (db, ok done) e = refl
stored-ok jwt now token (db, err x) e = absurd (cc)

filled-guard :
    (jwt : Jwt) (later : ℕ) (token : Text) (db : Db)
    → (token == []) ≡ false
    → can_activate jwt true later (some token) db
      ≡ user_of jwt true later db (verify_session_token jwt true later token db)
unfolding can_activate text_beq
filled-guard jwt later [] db filled = absurd (cc)
filled-guard jwt later (c ∷ t) db filled = refl

over :
    (at later expires : ℕ)
    → at ≤ later
    → ltb (seconds at) expires ≡ false
    → ltb (seconds later) expires ≡ false
over at later expires le e = ground arith

module _ (jwt : Jwt) (now : ℕ) (sid : Text) (user : UserRow) (db : Db) (law : IsJwt jwt)
    (fresh : any (of_session sid) db.sessions ≡ false) where
  abbrev payload : SessionPayload
  payload = payload_of jwt true now sid user

  abbrev expires : ℕ
  expires = seconds now + thirty_days

  abbrev after : Db
  after = (create_session now sid user.id expires db).0

  signed : sign_session_token jwt true now sid user db ≡ (after, ok (jwt.sign now payload))
  unfolding sign_session_token
  signed =
      stored-ok jwt now (jwt.sign now payload) (create_session now sid user.id expires db)
        (create_session-lets_in now now user.id user.id expires sid db fresh).0

  verified :
      (later : ℕ) (d : Db)
      → has_session later sid user.id d ≡ ltb (seconds later) expires
      → verify_session_token jwt true later (jwt.sign now payload) d
        ≡ (if ltb (seconds later) expires then some payload else none)
  unfolding verify_session_token
  verified later d known = elim (Bool-cases (ltb (seconds later) expires)) [
    | inl e ↦ rw (law.verifies now later payload, e, known, e) refl
    | inr e ↦ rw (law.verifies now later payload, e) refl
  ]

  let_in : (later : ℕ) → has_session later sid user.id after ≡ ltb (seconds later) expires
  let_in later =
      (create_session-lets_in now later user.id user.id expires sid db fresh).1 ∙ ground arith

  unknown :
      (later : ℕ) (d : Db)
      → has_session later sid user.id d ≡ false
      → verify_session_token jwt true later (jwt.sign now payload) d ≡ none
  unfolding verify_session_token
  unknown later d known = elim (Bool-cases (ltb (seconds later) expires)) [
    | inl e ↦ rw (law.verifies now later payload, e, known) refl
    | inr e ↦ rw (law.verifies now later payload, e) refl
  ]

  unknown-out :
      (later : ℕ) (d : Db)
      → has_session later sid user.id d ≡ false
      → can_activate jwt true later (some (jwt.sign now payload)) d ≡ none
  unknown-out later d gone =
      filled-guard jwt later (jwt.sign now payload) d (law.filled now payload)
      ∙ rw (unknown later d gone) refl

  find_by_id-after : find_by_id user.id after ≡ find_by_id user.id db
  unfolding find_by_id
  find_by_id-after = rw (create_session-users now sid user.id expires db) refl

  let_in-guard :
      (later : ℕ)
      → can_activate jwt true later (some (jwt.sign now payload)) after
        ≡ (if ltb (seconds later) expires then find_by_id user.id db else none)
  let_in-guard later =
      filled-guard jwt later (jwt.sign now payload) after (law.filled now payload)
      ∙ rw (verified later after (let_in later)) (elim (Bool-cases (ltb (seconds later) expires)) [
        | inl e ↦ rw (e, find_by_id-after) refl
        | inr e ↦ rw e refl
      ])

  gone-after :
      (at later : ℕ)
      → at ≤ later
      → has_session later sid user.id (revoke jwt true at (jwt.sign now payload) after) ≡ false
  unfolding revoke
  gone-after at later le = elim (Bool-cases (ltb (seconds at) expires)) [
    | inl e ↦
        rw (verified at after (let_in at), e)
          (create_session-lets_in now later user.id user.id expires sid db fresh).2
    | inr e ↦ rw (verified at after (let_in at), e) (let_in later ∙ over at later expires le e)
  ]

-- The token of a session under a new id lets in its user, as the table holds the user, until thirty
-- days later, and nobody from then on; once it has been given back at a time, it lets nobody in at
-- that time or later.
pub sign_session_token-can_activate :
    (jwt : Jwt) (now later at : ℕ) (sid : Text) (user : UserRow) (db : Db)
    → IsJwt jwt
    → any (of_session sid) db.sessions ≡ false
    → at ≤ later
    → let out = sign_session_token jwt true now sid user db in
      let token = jwt.sign now (payload_of jwt true now sid user) in
      (out.1 ≡ ok token)
      × (can_activate jwt true later (some token) out.0 ≡ (
          if ltb (seconds later) (seconds now + thirty_days) then find_by_id user.id db else none))
      × (can_activate jwt true later (some token) (revoke jwt true at token out.0) ≡ none)
sign_session_token-can_activate jwt now later at sid user db law fresh le =
    rw (signed jwt now sid user db law fresh) (
      refl,
      let_in-guard jwt now sid user db law fresh later,
      unknown-out jwt now sid user db law fresh later _
          (gone-after jwt now sid user db law fresh at later le),
    )
