-- ===== src/Domain/Repository/Current.antt =====
-- Rows as they stand in the table `custom_domains`: what is found is alone under its id.
use mathlib.Core.Path.{subst}
use swkoo_kr.Prelude.{
  ◌≡◌, refl, ap, Bool, some, List, [], ◌∷◌, arith, inl, inr, Bool-cases, Option-cases, or_else,
  true, false, Bool, nat_beq_iff, All, AllPairs, find,
}
use swkoo_kr.Prelude.Rows.{All-find, All-map, All-append_one, find-none}
use swkoo_kr.Prelude.Texts.{Text, text_beq_iff}
use swkoo_kr.Domain.Repository.{CustomDomainRow, Table, of_id, with_row, of_app, of_domain}
use swkoo_kr.Domain.Repository.Unique.{Apart, IsTable}

-- A row that is found is the one of its id.
pub find-of_id :
    (p : CustomDomainRow → Bool) (rows : List CustomDomainRow) (row : CustomDomainRow)
    → AllPairs Apart rows
    → find p rows ≡ some row
    → find (of_id row.id) rows ≡ some row
find-of_id p [] row h e = absurd (cc)
find-of_id p (r ∷ rows) row h e = elim (Bool-cases (p r)) [
  | inl t ↦ ground arith
  | inr u ↦
      let later : find p rows ≡ some row = rw u at e in
      let apart : Apart r row = All-find (Apart r) p rows row h.0 later in
      let ih : find (of_id row.id) rows ≡ some row = find-of_id p rows row h.1 later in
      ground (arith, apart.grows)
]

-- The row is what the table has under its id, if it has anything there.
pub IsCurrent : CustomDomainRow → Table → Type 0
IsCurrent row t = All (λ r. r.id ≡ row.id → r ≡ row) t.rows

pub IsCurrent-at :
    (row : CustomDomainRow) (t : Table)
    → IsCurrent row t
    → All (λ r. r.id ≡ row.id → r ≡ row) t.rows
unfolding IsCurrent
IsCurrent-at row t h = h

none_after :
    (row : CustomDomainRow) (rows : List CustomDomainRow)
    → All (Apart row) rows
    → All (λ r. r.id ≡ row.id → r ≡ row) rows
none_after row rows h = All-map _ _ rows (λ r apart e. absurd (omega (arith, apart.grows))) h

found-current :
    (p : CustomDomainRow → Bool) (rows : List CustomDomainRow) (row : CustomDomainRow)
    → AllPairs Apart rows
    → find p rows ≡ some row
    → All (λ r. r.id ≡ row.id → r ≡ row) rows
found-current p [] row h e = tt
found-current p (r ∷ rows) row h e = elim (Bool-cases (p r)) [
  | inl t ↦
      let same : r ≡ row = ground arith in
      (λ _. same, subst (λ x. All (λ q. q.id ≡ x.id → q ≡ x) rows) same (none_after r rows h.0))
  | inr u ↦
      let later : find p rows ≡ some row = rw u at e in
      let apart : Apart r row = All-find (Apart r) p rows row h.0 later in
      (λ k. absurd (omega (arith, apart.grows)), found-current p rows row h.1 later)
]

pub find-IsCurrent :
    (p : CustomDomainRow → Bool) (t : Table) (row : CustomDomainRow)
    → IsTable t
    → find p t.rows ≡ some row
    → IsCurrent row t
unfolding IsCurrent
find-IsCurrent p t row h e = found-current p t.rows row h.apart e

-- What an UPDATE returns is current, and where it returns nothing the row is gone.
pub returning-IsCurrent :
    (t : Table) (row : CustomDomainRow)
    → IsTable t
    → IsCurrent (or_else (find (of_id row.id) t.rows) row) t
unfolding IsCurrent
returning-IsCurrent t row h = elim (Option-cases (find (of_id row.id) t.rows)) [
  | inl e ↦ rw e (
      All-map _ _ t.rows (λ r u k. absurd (cc (u, (nat_beq_iff r.id row.id).1 k)))
        (find-none (of_id row.id) t.rows e))
  | inr (u, e) ↦ rw e (found-current (of_id row.id) t.rows u h.apart e)
]

pub new-IsCurrent :
    (t : Table) (row : CustomDomainRow)
    → IsTable t
    → row.id ≡ t.next_id
    → IsCurrent row (with_row t row)
unfolding IsCurrent
new-IsCurrent t row h same =
    All-append_one _ t.rows row
      (All-map _ _ t.rows (λ r lt e. absurd (omega (arith, lt, same))) h.below) (λ _. refl)

-- A key that rows apart do not share belongs to one row.
pub key_unique :
    (q : CustomDomainRow → Bool) (t : Table) (row : CustomDomainRow)
    → ((a b : CustomDomainRow) → Apart a b → q a ≡ true → q b ≡ false)
    → IsTable t
    → find q t.rows ≡ some row
    → All (λ r. q r ≡ true → r ≡ row) t.rows
key_unique q t row excludes h e = go t.rows h.apart e
  where
    go :
        (rows : List CustomDomainRow)
        → AllPairs Apart rows
        → find q rows ≡ some row
        → All (λ r. q r ≡ true → r ≡ row) rows
    go [] a e = tt
    go (r ∷ rows) a e = elim (Bool-cases (q r)) [
      | inl m ↦ (
        λ _. ground arith,
        All-map _ _ rows (λ b apart n. absurd (cc (excludes r b apart m, n))) a.0,
      )
      | inr u ↦ (λ m. absurd (cc (u, m)), go rows a.1 (rw u at e))
    ]

pub app-excludes :
    (login app_name : Text) (a b : CustomDomainRow)
    → Apart a b
    → of_app login app_name a ≡ true
    → of_app login app_name b ≡ false
app-excludes login app_name a b apart m = ground (
  arith,
  text_beq_iff a.login login,
  text_beq_iff b.login login,
  text_beq_iff a.app_name app_name,
  text_beq_iff b.app_name app_name,
  apart.login_apps,
)

pub domain-excludes :
    (domain : Text) (a b : CustomDomainRow)
    → Apart a b
    → of_domain domain a ≡ true
    → of_domain domain b ≡ false
domain-excludes domain a b apart m =
    ground (arith, text_beq_iff a.domain domain, text_beq_iff b.domain domain, apart.domains)

-- A row that is found by one test is found by each of its keys.
pub find-key :
    (p q : CustomDomainRow → Bool) (rows : List CustomDomainRow) (row : CustomDomainRow)
    → ((a b : CustomDomainRow) → Apart a b → q a ≡ true → q b ≡ false)
    → AllPairs Apart rows
    → find p rows ≡ some row
    → q row ≡ true
    → find q rows ≡ some row
find-key p q [] row excludes h e k = absurd (cc)
find-key p q (r ∷ rows) row excludes h e k = elim (Bool-cases (p r)) [
  | inl t ↦ let same : r ≡ row = ground arith in rw (ap q same, k) (ap some same)
  | inr u ↦
      let later : find p rows ≡ some row = rw u at e in
      elim (Bool-cases (q r)) [
        | inl m ↦ absurd (cc (excludes r row (All-find (Apart r) p rows row h.0 later) m, k))
        | inr n ↦ rw n (find-key p q rows row excludes h.1 later k)
      ]
]
