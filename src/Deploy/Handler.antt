-- ===== src/Deploy/Handler.antt =====
-- Request handlers of the deployment service: they change the tables, write to repositories, and
-- return or throw.
pub mod Laws
use swkoo_kr.Prelude.{
  ℕ, Bool, true, false, List, [], ◌∷◌, ◌++◌, Option, Result, ok, err, if◌then◌else◌,
}
use swkoo_kr.Prelude.Texts.{Text}
use swkoo_kr.Accounts.Db.{Db, AuditLogInsert}
use swkoo_kr.Accounts.Users.{audit}
use swkoo_kr.Domain.Repository.{Table}

-- What a repository has been brought to hold.
pub data Written : Type 0 where
  source_files : Text → List (Text × Text) → Written
  repository : Text → Written  -- made, or taken back from the archive
  deploy_files : List (Text × Text) → Written
  registration : Text → Text → Written
  unregistration : Text → Written

pub record Platform : Type 0 where
  pub db : Db
  pub domains : Table
  pub written : List Written

module _ {ℓ} (E : Type ℓ) where
  abbrev pub Handler {κ} : Type κ → Type (ℓ ⊔ κ)
  Handler A = Platform → Platform × Result E A

module _ {ℓ κ μ} {E : Type ℓ} {A : Type κ} {B : Type μ} where
  abbrev pub continue : (A → Handler E B) → Platform × Result E A → Platform × Result E B
  continue f (s, ok a) = f a s
  continue f (s, err e) = (s, err e)

  infixl 5 ◌>>=◌
  abbrev pub ◌>>=◌ : Handler E A → (A → Handler E B) → Handler E B
  ◌>>=◌ m f s = continue f (m s)

module _ {ℓ κ} {E : Type ℓ} {A : Type κ} where
  abbrev pub pure : A → Handler E A
  pure a s = (s, ok a)

  abbrev pub throw : E → Handler E A
  throw e s = (s, err e)

  abbrev pub of_result : Result E A → Handler E A
  of_result r s = (s, r)

  infixl 5 ◌>>◌
  abbrev pub ◌>>◌ : Handler E (Unit {0}) → Handler E A → Handler E A
  m >> k = m >>= λ done. k

  -- `this.users.audit(…); throw …`
  abbrev pub audit_throw : ℕ → AuditLogInsert → E → Handler E A
  audit_throw now entry e s = (record s { db = audit now entry s.db }, err e)

module _ {ℓ} {E : Type ℓ} where
  abbrev pub change_db : (Db → Db) → Handler E (Unit {0})
  change_db f s = (record s { db = f s.db }, ok tt)

  abbrev pub wrote : Written → Handler E (Unit {0})
  wrote w s = (record s { written = s.written ++ w ∷ [] }, ok tt)
