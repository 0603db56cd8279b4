-- ===== src/Accounts/Unique.antt =====
-- What the table `users` keeps: ids grow, no two rows clash, a live row has GitHub's id, and an
-- erased row has neither that id nor the login, name, e-mail address and picture.
use swkoo_kr.Prelude.{
  ℕ, ◌<◌, ◌≤◌, ◌≡◌, refl, sym, ◌∙◌, Bool, true, false, not, ◌&&◌, ◌||◌, Option, none, some, List,
  [], ◌∷◌, arith, inl, inr, Bool-cases, ok, any, keep, update_where, All, AllPairs, ap₂,
}
use swkoo_kr.Prelude.Rows.{step, All-update_where, AllPairs-update_where}
use swkoo_kr.Prelude.Integers.{pos, negate}
use swkoo_kr.Accounts.Db.{Db, Account}
use swkoo_kr.Accounts.Users.{apart, clash, store}
use swkoo_kr.Accounts.Erasure.{placeholder}

-- A live row, or one that is erased.
abbrev pub Shape : Option ℕ → Account → Type 0
Shape none a = (n : ℕ) × (a.github_id ≡ pos n)
Shape (some at) a =
    (a.github_id ≡ negate a.id)
    × (a.github_login ≡ placeholder a.id)
    × (a.name ≡ none)
    × (a.email ≡ none)
    × (a.avatar_url ≡ none)

pub record IsAccount (a : Account) : Type 0 where
  pub positive : 1 ≤ a.id
  pub shape : Shape a.deleted_at a

pub record AreAccounts (db : Db) : Type 0 where
  pub started : 1 ≤ db.next_user_id
  pub below : All (λ a. a.id < db.next_user_id) db.users
  pub grows : AllPairs (λ a b. a.id < b.id) db.users
  pub unique : apart db.users ≡ true
  pub accounts : All IsAccount db.users

negate_lem : (m n : ℕ) → 1 ≤ m → negate m ≡ pos n → ⊥
negate_lem m n k x = ground arith

Shape-live :
    (d : Option ℕ) (a : Account) (n : ℕ) → a.github_id ≡ pos n → 1 ≤ a.id → Shape d a → d ≡ none
Shape-live none a n e p k = refl
Shape-live (some at) a n e p k = absurd (negate_lem a.id n p (sym k.0 ∙ e))

-- An account with an id of GitHub is live.
pub github-live : (a : Account) (n : ℕ) → a.github_id ≡ pos n → IsAccount a → a.deleted_at ≡ none
github-live a n e h = Shape-live a.deleted_at a n e h.positive h.shape

pub store-ok :
    (rows : List Account) (db db' : Db)
    → store rows db ≡ ok db'
    → (apart rows ≡ true) × (db' ≡ record db { users = rows })
unfolding store
store-ok rows db db' e = elim (Bool-cases (apart rows)) [
  | inl t ↦ (t, cc (rw t at e))
  | inr f ↦ absurd (cc (rw f at e))
]

any-keep :
    (q p : Account → Bool) (rows : List Account) → any q rows ≡ false → any q (keep p rows) ≡ false
any-keep q p [] h = refl
any-keep q p (a ∷ rows) h = ground (arith, any-keep q p rows)

pub apart-keep :
    (p : Account → Bool) (rows : List Account) → apart rows ≡ true → apart (keep p rows) ≡ true
unfolding apart
apart-keep p [] h = refl
apart-keep p (a ∷ rows) h =
    let rest = apart-keep p rows (ground arith) in
    let none_clash = any-keep (clash a) p rows (ground arith) in ground arith

module _ (p : Account → Bool) (f : Account → Account) where
  any-update :
      (q r : Account → Bool) (rows : List Account)
      → ((a : Account) → r (step p f a) ≡ q a)
      → any r (update_where p f rows) ≡ any q rows
  any-update q r [] same = refl
  any-update q r (a ∷ rows) same = ap₂ (λ x y. x || y) (same a) (any-update q r rows same)

  -- An update that no index sees.
  pub apart-update :
      (rows : List Account)
      → ((a b : Account) → clash (step p f a) (step p f b) ≡ clash a b)
      → apart (update_where p f rows) ≡ apart rows
  unfolding apart
  apart-update [] same = refl
  apart-update (a ∷ rows) same =
      ap₂ (λ x y. not x && y) (any-update (clash a) (clash (step p f a)) rows (same a))
        (apart-update rows same)

  -- An update of rows that keeps ids and the shape of each row, where the indexes accept it.
  pub update-AreAccounts :
      (db : Db)
      → ((a : Account) → (f a).id ≡ a.id)
      → ((a : Account) → p a ≡ true → IsAccount a → IsAccount (f a))
      → apart (update_where p f db.users) ≡ true
      → AreAccounts db
      → AreAccounts (record db { users = update_where p f db.users })
  update-AreAccounts db same keeps unique h = record {
    started = h.started;
    below =
        All-update_where p f _ (λ a. a.id < db.next_user_id) db.users
          (λ a k. ground (arith, same a, k)) h.below;
    grows =
        AllPairs-update_where p f (λ a b. a.id < b.id) db.users
          (λ a b k. ground (arith, same a, same b, k)) h.grows;
    unique = unique;
    accounts =
        All-update_where p f IsAccount IsAccount db.users
          (λ a k. elim (Bool-cases (p a)) [ inl e ↦ rw e (keeps a e k) | inr e ↦ rw e k ])
          h.accounts;
  }
