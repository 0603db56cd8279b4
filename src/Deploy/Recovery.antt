-- ===== src/Deploy/Recovery.antt =====
-- deploy/deployment-recovery.service.ts: an operator takes back the reservation of a login that has
-- nothing left. The hash of the state is a parameter.
pub mod Safe
mod Tests
use swkoo_kr.Prelude.{
  ℕ, ◌-◌, Bool, true, false, not, ◌&&◌, ◌||◌, Option, none, some, List, [], ◌∷◌, ◌++◌,
  if◌then◌else◌, ◌==◌, nat_eq, nat_beq, leb, is_some, all, keep, length, find, Result, ok, err,
  ◌>>=◌,
}
use swkoo_kr.Prelude.Texts.{Text, lit, text_eq, to_lower, is_digit, is_lower}
use swkoo_kr.Accounts.Db.{Db, Reservation}
use swkoo_kr.Accounts.Reservations.{of_login, recover_admission_reservation}
use swkoo_kr.Github.Commit.{HttpFailure, is_status}
use swkoo_kr.Deploy.Current.{
  StateAnswers, RecoveryState, StateError, get_recovery_registration_state,
}

pub data RecoveryError : Type 0 where
  invalid_login no_cluster unverified not_safe changed : RecoveryError

abbrev is_edge : ℕ → Bool
is_edge u = is_lower u || is_digit u

abbrev is_last_edge : Text → Bool
is_last_edge [] = false
is_last_edge (u ∷ []) = is_edge u
is_last_edge (u ∷ v ∷ t) = is_last_edge (v ∷ t)

abbrev is_first_edge : Text → Bool
is_first_edge [] = false
is_first_edge (u ∷ t) = is_edge u

-- `/^[a-z0-9](?:[a-z0-9-]{0,37}[a-z0-9])?$/`
unfoldable pub is_login : Text → Bool
is_login t =
    leb (length t) 39
    && is_first_edge t
    && is_last_edge t
    && all (λ u. is_edge u || nat_beq u b'-') t

-- What the cluster and the control repository answer on the login.
pub record Remains : Type 0 where
  pub has_cluster : Bool
  pub state : StateAnswers
  pub namespace : Result HttpFailure (Unit {0})
  pub volumes : Result HttpFailure (List (Option Text))  -- the namespace of each one's claim

pub record Inspected : Type 0 where
  pub login : Text
  pub reservation : Option Reservation
  pub registration : Bool
  pub application : Bool
  pub namespace : Bool
  pub persistent_volumes : ℕ

pub record Plan : Type 0 where
  pub state : Inspected
  pub can_release : Bool
  pub digest : Text

abbrev namespace_of : Text → Text
namespace_of login = lit "user-" ++ login

abbrev pub found_namespace : Result HttpFailure (Unit {0}) → Result RecoveryError Bool
found_namespace (ok done) = ok true
found_namespace (err e) = if is_status 404 e then ok false else err RecoveryError.unverified

abbrev is_claimed : Text → Option Text → Bool
is_claimed login none = false
is_claimed login (some namespace) = namespace == namespace_of login

abbrev pub claimed : Text → List (Option Text) → ℕ
claimed login volumes = length (keep (is_claimed login) volumes)

abbrev pub state_read : Result StateError RecoveryState → Result RecoveryError RecoveryState
state_read (ok state) = ok state
state_read (err e) = err RecoveryError.unverified

abbrev pub volumes_read :
    Result HttpFailure (List (Option Text)) → Result RecoveryError (List (Option Text))
volumes_read (ok volumes) = ok volumes
volumes_read (err e) = err RecoveryError.unverified

abbrev pub can_release : Inspected → Bool
can_release s =
    is_some s.reservation
    && not s.registration
    && not s.application
    && not s.namespace
    && nat_beq s.persistent_volumes 0

module _ (hash : Inspected → Text) (remains : Remains) where
  abbrev pub plan_of : Inspected → Plan
  plan_of s = record { state = s; can_release = can_release s; digest = hash s }

  abbrev pub inspect_login : Text → Db → Result RecoveryError Plan
  inspect_login login db = do
    git ← state_read (get_recovery_registration_state remains.state)
    namespace ← found_namespace remains.namespace
    volumes ← volumes_read remains.volumes
    ok (
        plan_of (record {
          login = login;
          reservation = find (of_login login) db.admission_reservations;
          registration = git.registration;
          application = git.application;
          namespace = namespace;
          persistent_volumes = claimed login volumes;
        }))

  -- `inspect`
  unfoldable pub inspect : Text → Db → Result RecoveryError Plan
  inspect raw_login db =
      if not (is_login (to_lower raw_login))
      then err RecoveryError.invalid_login
      else if not remains.has_cluster
      then err RecoveryError.no_cluster
      else inspect_login (to_lower raw_login) db

  abbrev pub recover : ℕ → Text → Text → Db → Option Reservation → Db × Result RecoveryError Text
  recover now actor login db none = (db, err RecoveryError.not_safe)
  recover now actor login db (some r) =
      let (db', done) = recover_admission_reservation now login r.created_at actor db in
      if done then (db', ok login) else (db', err RecoveryError.changed)

  abbrev pub is_digest_of : Plan → Option Text → Bool
  is_digest_of plan none = false
  is_digest_of plan (some digest) = digest == plan.digest

  abbrev pub release_plan :
      ℕ → Text → Option Text → Db → Result RecoveryError Plan → Db × Result RecoveryError Text
  release_plan now actor digest db (err e) = (db, err e)
  release_plan now actor digest db (ok plan) =
      if plan.can_release && is_digest_of plan digest
      then recover now actor plan.state.login db plan.state.reservation
      else (db, err RecoveryError.not_safe)

  -- `release`, whose inspection saw the tables as they were before; a digest that is no text is none.
  unfoldable pub release : ℕ → Text → Option Text → Text → Db → Db → Db × Result RecoveryError Text
  release now raw_login digest actor seen db =
      release_plan now actor digest db (inspect raw_login seen)
