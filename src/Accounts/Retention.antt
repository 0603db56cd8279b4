-- ===== src/Accounts/Retention.antt =====
-- What the clean-up of old accounts removes and leaves.
use swkoo_kr.Prelude.{
  ℕ, ◌≡◌, refl, ap, Bool, true, false, not, ◌&&◌, Option, none, some, List, [], ◌∷◌, arith, ◌==◌,
  nat_eq, inl, inr, Bool-cases, any, find, keep, is_some,
}
use swkoo_kr.Prelude.Rows.{find-keep}
use swkoo_kr.Prelude.Texts.{text_eq, text_beq_iff}
use swkoo_kr.Accounts.Db.{Db, Account, AuditRow}
use swkoo_kr.Accounts.Users.{of_id, is_live, find_by_id, found}
use swkoo_kr.Accounts.Erasure.{
  placeholder, hard_delete_old_users, is_old, older, by_actor, is_actor_of,
}

-- An old row makes its placeholder one of the deleted actors.
old-actor :
    (cutoff : ℕ) (a : Account) (rows : List Account) (r : AuditRow)
    → find (of_id a.id) rows ≡ some a
    → is_old cutoff a ≡ true
    → by_actor (placeholder a.id) r ≡ true
    → is_actor_of (keep (is_old cutoff) rows) r ≡ true
old-actor cutoff a [] r e old by = absurd (cc)
old-actor cutoff a (x ∷ rows) r e old by = elim (Bool-cases (of_id a.id x)) [
  | inl t ↦
      let same : x ≡ a = ground arith in
      let kept : is_old cutoff x ≡ true = rw same old in
      let named : (placeholder x.id == r.entry.actor) ≡ true = rw same (
        (text_beq_iff (placeholder a.id) r.entry.actor).1
          (cc ((text_beq_iff r.entry.actor (placeholder a.id)).0 by))) in
      rw (kept, named) refl
  | inr f ↦
      let rest = old-actor cutoff a rows r (rw f at e) old by in
      elim (Bool-cases (is_old cutoff x)) [
        | inl k ↦ rw (k, rest) (ground arith)
        | inr k ↦ rw k rest
      ]
]

any-keep_excluded :
    {A : Type 0} (q p : A → Bool) (xs : List A)
    → ((x : A) → q x ≡ true → p x ≡ false)
    → any q (keep p xs) ≡ false
any-keep_excluded q p [] h = refl
any-keep_excluded q p (x ∷ xs) h = ground (arith, h x, any-keep_excluded q p xs h)

any-keep_self : {A : Type 0} (q : A → Bool) (xs : List A) → any q (keep (λ x. not (q x)) xs) ≡ false
any-keep_self q xs = any-keep_excluded q (λ x. not (q x)) xs (λ x t. rw t refl)

live-stays : (cutoff : ℕ) (d : Option ℕ) → is_some d ≡ false → not (older cutoff d) ≡ true
live-stays cutoff none e = refl
live-stays cutoff (some at) e = absurd (cc)

-- The clean-up leaves no account that was deleted before the cutoff, and none of the audit entries
-- of such an account; every live account is found by its id as before.
pub hard_delete_old_users-forgets :
    (cutoff : ℕ) (a : Account) (id : ℕ) (db : Db)
    → find (of_id a.id) db.users ≡ some a
    → is_old cutoff a ≡ true
    → (any (is_old cutoff) (hard_delete_old_users cutoff db).0.users ≡ false)
      × (any (by_actor (placeholder a.id)) (hard_delete_old_users cutoff db).0.audit_log ≡ false)
      × (find_by_id id (hard_delete_old_users cutoff db).0 ≡ find_by_id id db)
unfolding hard_delete_old_users find_by_id
hard_delete_old_users-forgets cutoff a id db there old = (
  any-keep_self (is_old cutoff) db.users,
  any-keep_excluded (by_actor (placeholder a.id))
      (λ r. not (is_actor_of (keep (is_old cutoff) db.users) r)) db.audit_log
      (λ r by. rw (old-actor cutoff a db.users r there old by) refl),
  ap found (
      find-keep (λ r. of_id id r && is_live r) (λ r. not (is_old cutoff r)) db.users
        (λ r t. live-stays cutoff r.deleted_at (ground arith))),
)
