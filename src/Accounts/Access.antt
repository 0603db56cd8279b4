-- ===== src/Accounts/Access.antt =====
-- Sessions: who is let in, and until when. And the queue of notifications.
use swkoo_kr.Prelude.{
  ℕ, ◌≡◌, refl, Bool, true, false, not, ◌&&◌, ◌||◌, List, [], ◌∷◌, ◌++◌, arith, ◌==◌, nat_eq, any,
  keep, ok, ltb,
}
use swkoo_kr.Prelude.Texts.{Text, text_eq, text_beq_refl}
use swkoo_kr.Accounts.Db.{Db, Session}
use swkoo_kr.Accounts.Sessions.{
  create_session, has_session, revoke_session, is_session, of_session, seconds, is_expired,
}

any-append_one :
    {A : Type 0} (q : A → Bool) (xs : List A) (y : A) → any q (xs ++ y ∷ []) ≡ (any q xs || q y)
any-append_one q [] y = ground arith
any-append_one q (x ∷ xs) y = ground (arith, any-append_one q xs y)

any-excluded :
    {A : Type 0} (q r : A → Bool) (xs : List A)
    → ((x : A) → q x ≡ true → r x ≡ true)
    → any r xs ≡ false
    → any q xs ≡ false
any-excluded q r [] h e = refl
any-excluded q r (x ∷ xs) h e = ground (arith, h x, any-excluded q r xs h)

any-revoked :
    (now user_id : ℕ) (id : Text) (xs : List Session)
    → any (is_session now id user_id) (keep (λ s. not (of_session id s)) xs) ≡ false
any-revoked now user_id id [] = refl
any-revoked now user_id id (s ∷ xs) = ground (arith, any-revoked now user_id id xs)

kept-fresh :
    {A : Type 0} (q p : A → Bool) (xs : List A) → any q xs ≡ false → any q (keep p xs) ≡ false
kept-fresh q p [] h = refl
kept-fresh q p (x ∷ xs) h = ground (arith, kept-fresh q p xs)

-- A session that is created under a new id lets its user in until the second of its expiry, nobody
-- else and no longer; once it is revoked it lets nobody in.
pub create_session-lets_in :
    (now later user_id other expires_at : ℕ) (id : Text) (db : Db)
    → any (of_session id) db.sessions ≡ false
    → ((create_session now id user_id expires_at db).1 ≡ ok tt)
      × (has_session later id other (create_session now id user_id expires_at db).0
          ≡ (user_id == other && ltb (seconds later) expires_at))
      × (has_session later id other
            (revoke_session id (create_session now id user_id expires_at db).0)
          ≡ false)
unfolding create_session has_session revoke_session
create_session-lets_in now later user_id other expires_at id db fresh =
    let unused : any (of_session id) (keep (λ s. not (is_expired now s)) db.sessions) ≡ false =
      kept-fresh (of_session id) (λ s. not (is_expired now s)) db.sessions fresh in
    let strangers : any (is_session later id other) (keep (λ s. not (is_expired now s)) db.sessions)
        ≡ false =
      any-excluded (is_session later id other) (of_session id) _ (λ s t. ground arith) unused in
    (
      rw unused refl,
      rw (unused, any-append_one, strangers, text_beq_refl) refl,
      any-revoked later other id _,
    )
