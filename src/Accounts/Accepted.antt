-- ===== src/Accounts/Accepted.antt =====
-- The indexes accept the deletion of an account.
use swkoo_kr.Prelude.{
  ℕ, ◌<◌, ◌≤◌, ◌≡◌, refl, sym, Bool, true, false, Option, none, some, List, [], ◌∷◌, arith, ◌==◌,
  nat_eq, inl, inr, Bool-cases, Result-cases, any, update_where, All, AllPairs, ok,
}
use swkoo_kr.Prelude.Rows.{step, All-map, All-both, All-update_where, any-false}
use swkoo_kr.Prelude.Texts.{Text, text_eq, text_beq_iff}
use swkoo_kr.Prelude.Integers.{ℤ, negate, int_eq, int_beq_iff}
use swkoo_kr.Accounts.Db.{Db, Account}
use swkoo_kr.Accounts.Users.{apart, clash, of_id, same_claim, store}
use swkoo_kr.Accounts.Erasure.{placeholder, erased, erase_rest, rename_reservation}
use swkoo_kr.Accounts.Reservations.{of_login}
use swkoo_kr.Accounts.Unique.{AreAccounts, IsAccount, Shape}

any_of_All :
    (q : Account → Bool) (rows : List Account) → All (λ r. q r ≡ false) rows → any q rows ≡ false
any_of_All q [] h = refl
any_of_All q (r ∷ rows) h = rw (h.0, any_of_All q rows h.1) refl

claim_none : (s : Option Text) → same_claim s none ≡ false
claim_none none = refl
claim_none (some t) = refl

text-swap : (s t : Text) → (s == t) ≡ false → (t == s) ≡ false
text-swap s t h = elim (Bool-cases (t == s)) [
  | inr f ↦ f
  | inl e ↦ absurd (cc (h, (text_beq_iff s t).1 (sym ((text_beq_iff t s).0 e))))
]

int-swap : (i j : ℤ) → (i == j) ≡ false → (j == i) ≡ false
int-swap i j h = elim (Bool-cases (j == i)) [
  | inr f ↦ f
  | inl e ↦ absurd (cc (h, (int_beq_iff i j).1 (sym ((int_beq_iff j i).0 e))))
]

negate-differs : (m n : ℕ) → nat_eq.same m n ≡ false → int_eq.same (negate m) (negate n) ≡ false
negate-differs m n h = ground arith

module _ (now id : ℕ) where
  -- Another row has not the keys that the erased row will have.
  abbrev Free : Account → Type 0
  Free r =
      of_id id r ≡ false
      → ((r.github_id == negate id) ≡ false) × ((r.github_login == placeholder id) ≡ false)

  Shape-Free :
      (d : Option ℕ) (r : Account)
      → 1 ≤ id
      → of_id id r ≡ false
      → Shape d r
      → (r.github_id == negate id) ≡ false
  Shape-Free none r p other k = rw k.1 (ground (arith, p))
  Shape-Free (some at) r p other k = rw k.0 (negate-differs r.id id other)

  clash-erased :
      (x r : Account)
      → x.id ≡ id
      → ((r.github_id == negate id) ≡ false) × ((r.github_login == placeholder id) ≡ false)
      → (clash (erased now x) r ≡ false) × (clash r (erased now x) ≡ false)
  clash-erased x r e h = (
    rw (e, int-swap r.github_id (negate id) h.0, text-swap r.github_login (placeholder id) h.1)
        refl,
    rw (e, h.0, h.1, claim_none r.subdomain) refl,
  )

  -- The update of a row with `id` and of one without.
  step-hit : (r : Account) → of_id id r ≡ true → step (of_id id) (erased now) r ≡ erased now r
  step-hit r e = rw e refl

  step-miss : (r : Account) → of_id id r ≡ false → step (of_id id) (erased now) r ≡ r
  step-miss r e = rw e refl

  apart-erased :
      (rows : List Account)
      → AllPairs (λ a b. a.id < b.id) rows
      → All Free rows
      → apart rows ≡ true
      → apart (update_where (of_id id) (erased now) rows) ≡ true
  unfolding apart
  apart-erased [] grows free h = refl
  apart-erased (x ∷ rows) grows free h =
      let rest = apart-erased rows grows.1 free.1 (ground arith) in
      let alone : All (λ r. clash x r ≡ false) rows = any-false (clash x) rows (ground arith) in
      elim (Bool-cases (of_id id x)) [
        | inl t ↦
            let same : x.id ≡ id = ground arith in
            let none_clash =
              any_of_All (clash (erased now x)) (update_where (of_id id) (erased now) rows) (
                All-update_where (of_id id) (erased now) (λ r. (x.id < r.id) × Free r)
                  (λ r. clash (erased now x) r ≡ false) rows
                  (λ r k.
                    let miss : of_id id r ≡ false = ground (arith, same, k.0) in
                    rw (step-miss r miss) (clash-erased x r same (k.1 miss)).0)
                  (All-both (λ r. x.id < r.id) Free rows grows.0 free.1)) in
            rw (t, none_clash, rest) refl
        | inr f ↦
            let none_clash = any_of_All (clash x) (update_where (of_id id) (erased now) rows) (
              All-update_where (of_id id) (erased now) (λ r. clash x r ≡ false)
                (λ r. clash x r ≡ false) rows
                (λ r k. elim (Bool-cases (of_id id r)) [
                  | inl e ↦
                      let same : r.id ≡ id = ground arith in
                      rw (step-hit r e) (clash-erased r x same (free.0 f)).1
                  | inr e ↦ rw (step-miss r e) k
                ])
                alone) in
            rw (f, none_clash, rest) refl
      ]

  -- No row has the placeholder, and none with another id has the negated id.
  All-Free :
      (rows : List Account)
      → 1 ≤ id
      → any (λ r. r.github_login == placeholder id) rows ≡ false
      → All IsAccount rows
      → All Free rows
  All-Free rows p unnamed h =
      All-map (λ r. IsAccount r × ((r.github_login == placeholder id) ≡ false)) Free rows
        (λ r k other. (Shape-Free r.deleted_at r p other k.0.shape, k.1))
        (All-both IsAccount (λ r. (r.github_login == placeholder id) ≡ false) rows h
          (any-false (λ r. r.github_login == placeholder id) rows unnamed))

  pub erase_rest-ok :
      (login : Text) (db : Db)
      → AreAccounts db
      → 1 ≤ id
      → any (λ r. r.github_login == placeholder id) db.users ≡ false
      → (db' : Db) × (erase_rest now id login db ≡ ok db')
  unfolding store
  erase_rest-ok login db h p unnamed =
      let accepted =
        apart-erased db.users h.grows (All-Free db.users p unnamed h.accounts) h.unique in
      elim (Result-cases (erase_rest now id login db)) [
        | inl made ↦ made
        | inr (x, refused) ↦ absurd (cc (rw accepted at refused))
      ]

  pub rename_reservation-ok :
      (login : Text) (db : Db)
      → any (of_login (placeholder id)) db.admission_reservations ≡ false
      → (db' : Db) × (rename_reservation login (placeholder id) db ≡ ok db')
        × (db'.users ≡ db.users)
        × (db'.next_user_id ≡ db.next_user_id)
  rename_reservation-ok login db free =
      elim (Result-cases (rename_reservation login (placeholder id) db)) [
        | inl (db', made) ↦ (db', made, ground (arith, made), ground (arith, made))
        | inr (x, refused) ↦ absurd (ground (arith, refused, free))
      ]
