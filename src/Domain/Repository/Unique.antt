-- ===== src/Domain/Repository/Unique.antt =====
-- The table `custom_domains` keeps its keys apart: ids, domains, (user, app) and (login, app).
use swkoo_kr.Prelude.{
  ℕ, ◌<◌, ◌≡◌, refl, ◌≢◌, false, none, List, [], ◌∷◌, arith, inl, inr, Bool-cases, ok, All,
  AllPairs, find,
}
use swkoo_kr.Prelude.Rows.{
  step, All-append_one, All-keep, All-map, AllPairs-append_one, AllPairs-keep, All-update_where,
  AllPairs-update_where, any-false, find-none,
}
use swkoo_kr.Prelude.Texts.{Text, text_beq_iff}
use swkoo_kr.Domain.Repository.{
  CustomDomainRow, CreateCustomDomainInput, CustomDomainStatus, StatusChange, Table, of_id, of_app,
  of_domain, of_user_app, create, new_row, with_row, clashes, update_row, set_status, set_applied,
  set_no_error, delete,
}

-- Two rows in the order of the table: no key is shared, and ids grow.
pub record Apart (a b : CustomDomainRow) : Type 0 where
  pub grows : a.id < b.id
  pub domains : a.domain ≢ b.domain
  pub user_apps : a.user_id ≡ b.user_id → a.app_name ≢ b.app_name
  pub login_apps : a.login ≡ b.login → a.app_name ≢ b.app_name

pub record IsTable (t : Table) : Type 0 where
  pub below : All (λ r. r.id < t.next_id) t.rows
  pub apart : AllPairs Apart t.rows

-- What an update may not touch.
pub record SameKeys (a b : CustomDomainRow) : Type 0 where
  pub id : a.id ≡ b.id
  pub user_id : a.user_id ≡ b.user_id
  pub login : a.login ≡ b.login
  pub app_name : a.app_name ≡ b.app_name
  pub domain : a.domain ≡ b.domain

pub KeepsKeys : (CustomDomainRow → CustomDomainRow) → Type 0
KeepsKeys f = (r : CustomDomainRow) → SameKeys (f r) r

pub KeepsKeys-at :
    (f : CustomDomainRow → CustomDomainRow) → KeepsKeys f → (r : CustomDomainRow) → SameKeys (f r) r
unfolding KeepsKeys
KeepsKeys-at f h r = h r

step-SameKeys :
    (id : ℕ) (f : CustomDomainRow → CustomDomainRow) (r : CustomDomainRow)
    → SameKeys (f r) r
    → SameKeys (step (of_id id) f r) r
step-SameKeys id f r k = elim (Bool-cases (of_id id r)) [
  | inl e ↦ rw e k
  | inr e ↦
      rw e (record { id = refl; user_id = refl; login = refl; app_name = refl; domain = refl })
]

Apart-same : (a b c d : CustomDomainRow) → SameKeys c a → SameKeys d b → Apart a b → Apart c d
Apart-same a b c d h k apart = record {
  grows = omega (arith, h.id, k.id, apart.grows);
  domains = λ e. apart.domains (cc (h.domain, k.domain));
  user_apps = λ u e. apart.user_apps (cc (h.user_id, k.user_id)) (cc (h.app_name, k.app_name));
  login_apps = λ u e. apart.login_apps (cc (h.login, k.login)) (cc (h.app_name, k.app_name));
}

pub update_row-IsTable :
    (id : ℕ) (f : CustomDomainRow → CustomDomainRow) (t : Table)
    → KeepsKeys f
    → IsTable t
    → IsTable (update_row id f t)
unfolding KeepsKeys
update_row-IsTable id f t same h = record {
  below =
      All-update_where (of_id id) f _ _ t.rows
        (λ r lt. let k = step-SameKeys id f r (same r) in omega (arith, k.id)) h.below;
  apart =
      AllPairs-update_where (of_id id) f Apart t.rows
        (λ a b. Apart-same a b _ _ (step-SameKeys id f a (same a)) (step-SameKeys id f b (same b)))
        h.apart;
}

pub set_status-KeepsKeys :
    (now : ℕ) (status : CustomDomainStatus) (c : StatusChange) → KeepsKeys (set_status now status c)
unfolding KeepsKeys set_status
set_status-KeepsKeys now status c r = record {
  id = refl;
  user_id = refl;
  login = refl;
  app_name = refl;
  domain = refl;
}

pub set_applied-KeepsKeys : (now : ℕ) (sha : Text) → KeepsKeys (set_applied now sha)
unfolding KeepsKeys set_applied
set_applied-KeepsKeys now sha r = record {
  id = refl;
  user_id = refl;
  login = refl;
  app_name = refl;
  domain = refl;
}

pub set_no_error-KeepsKeys : (now : ℕ) → KeepsKeys (set_no_error now)
unfolding KeepsKeys set_no_error
set_no_error-KeepsKeys now r = record {
  id = refl;
  user_id = refl;
  login = refl;
  app_name = refl;
  domain = refl;
}

-- A row is inserted where no index has its keys.
pub create-ok :
    (now : ℕ) (i : CreateCustomDomainInput) (t t' : Table) (row : CustomDomainRow)
    → create now i t ≡ ok (t', row)
    → (clashes i t ≡ false) × (t' ≡ with_row t row) × (row ≡ new_row now t.next_id i)
unfolding create
create-ok now i t t' row e = ground arith

new_row-Apart :
    (now id : ℕ) (i : CreateCustomDomainInput) (r : CustomDomainRow)
    → r.id < id
    → of_domain i.domain r ≡ false
    → of_user_app i.user_id i.app_name r ≡ false
    → of_app i.login i.app_name r ≡ false
    → Apart r (new_row now id i)
new_row-Apart now id i r lt d u l = record {
  grows = lt;
  domains = λ e. ground (arith, text_beq_iff r.domain i.domain);
  user_apps = λ e k. ground (arith, text_beq_iff r.app_name i.app_name);
  login_apps =
      λ e k. ground (arith, text_beq_iff r.app_name i.app_name, text_beq_iff r.login i.login);
}

-- The rows below the next id, none of which has a key of the new row, stand apart from it.
All-Apart :
    (now id : ℕ) (i : CreateCustomDomainInput) (rows : List CustomDomainRow)
    → All (λ r. r.id < id) rows
    → All (λ r. of_domain i.domain r ≡ false) rows
    → All (λ r. of_user_app i.user_id i.app_name r ≡ false) rows
    → All (λ r. of_app i.login i.app_name r ≡ false) rows
    → All (λ r. Apart r (new_row now id i)) rows
All-Apart now id i [] lt d u l = tt
All-Apart now id i (r ∷ rows) lt d u l =
    (new_row-Apart now id i r lt.0 d.0 u.0 l.0, All-Apart now id i rows lt.1 d.1 u.1 l.1)

-- The indexes, and the service's own test by login and app, keep a new row apart from the others.
pub create-IsTable :
    (now : ℕ) (i : CreateCustomDomainInput) (t t' : Table) (row : CustomDomainRow)
    → IsTable t
    → find (of_app i.login i.app_name) t.rows ≡ none
    → create now i t ≡ ok (t', row)
    → IsTable t'
create-IsTable now i t t' row h free e =
    let (fresh, table, made) = create-ok now i t t' row e in
    rw (table, made)
      (record {
        below =
            All-append_one _ t.rows _ (All-map _ _ t.rows (λ r lt. omega (arith, lt)) h.below)
              (omega arith);
        apart = AllPairs-append_one Apart t.rows _ h.apart (
            All-Apart now t.next_id i t.rows h.below
              (any-false (of_domain i.domain) t.rows (ground arith))
              (any-false (of_user_app i.user_id i.app_name) t.rows (ground arith))
              (find-none _ t.rows free));
      })

pub delete-IsTable : (id : ℕ) (t : Table) → IsTable t → IsTable (delete id t)
unfolding delete
delete-IsTable id t h = record {
  below = All-keep _ _ t.rows h.below;
  apart = AllPairs-keep Apart _ t.rows h.apart;
}
