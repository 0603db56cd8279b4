-- ===== src/Deploy/Recovery/Safe.antt =====
-- What `release` has seen where it takes a reservation back.
use swkoo_kr.Prelude.{
  ℕ, ◌≡◌, refl, ap, sym, true, false, not, ◌&&◌, Option, none, some, List, arith, nat_eq, any, keep,
  find, inl, inr, Bool-cases, Result-cases, Result, ok, err, bind-ok, ok-eq,
}
use swkoo_kr.Prelude.Texts.{Text, text_eq, text_beq_iff, to_lower}
use swkoo_kr.Accounts.Db.{Db, Reservation}
use swkoo_kr.Accounts.Users.{audit}
use swkoo_kr.Accounts.Reservations.{of_login, of_reservation, recover_admission_reservation}
use swkoo_kr.Github.Commit.{HttpFailure}
use swkoo_kr.Deploy.Current.{StateError, RecoveryState, get_recovery_registration_state}
use swkoo_kr.Deploy.Recovery.{
  RecoveryError, Remains, Inspected, Plan, is_login, found_namespace, claimed, state_read,
  volumes_read, can_release, plan_of, inspect_login, inspect, recover, is_digest_of, release_plan,
  release,
}

-- What the inspection tells is what the control repository, the cluster and the table hold.
pub record IsSeen (remains : Remains) (seen : Db) (s : Inspected) : Type 0 where
  pub git :
      get_recovery_registration_state remains.state
      ≡ ok (record { registration = s.registration; application = s.application })
  pub namespace : found_namespace remains.namespace ≡ ok s.namespace
  pub volumes :
      (vs : List (Option Text)) × (remains.volumes ≡ ok vs)
      × (claimed s.login vs ≡ s.persistent_volumes)
  pub reservation : find (of_login s.login) seen.admission_reservations ≡ s.reservation

-- Nothing is left.
pub record IsBare (s : Inspected) : Type 0 where
  pub registration : s.registration ≡ false
  pub application : s.application ≡ false
  pub namespace : s.namespace ≡ false
  pub persistent_volumes : s.persistent_volumes ≡ 0

-- The reservation was still there, and is the one row that is taken away.
pub record IsTaken (login : Text) (r : Reservation) (db db' : Db) : Type 0 where
  pub there : any (of_reservation login r.created_at) db.admission_reservations ≡ true
  pub taken :
      db'.admission_reservations
      ≡ keep (λ x. not (of_reservation login r.created_at x)) db.admission_reservations
  pub users : db'.users ≡ db.users

state_read-ok :
    (r : Result StateError RecoveryState) (s : RecoveryState) → state_read r ≡ ok s → r ≡ ok s
state_read-ok (ok t) s e = ap ok (ok-eq e)
state_read-ok (err x) s e = absurd (cc)

volumes_read-ok :
    (r : Result HttpFailure (List (Option Text))) (vs : List (Option Text))
    → volumes_read r ≡ ok vs
    → r ≡ ok vs
volumes_read-ok (ok t) vs e = ap ok (ok-eq e)
volumes_read-ok (err x) vs e = absurd (cc)

inspect_login-IsSeen :
    (hash : Inspected → Text) (remains : Remains) (login : Text) (seen : Db) (plan : Plan)
    → inspect_login hash remains login seen ≡ ok plan
    → (s : Inspected) × (plan ≡ plan_of hash remains s) × (s.login ≡ login) × IsSeen remains seen s
inspect_login-IsSeen hash remains login seen plan h =
    let (git, g, h') =
      bind-ok (state_read (get_recovery_registration_state remains.state)) _ plan h in
    let (namespace, n, h'') = bind-ok (found_namespace remains.namespace) _ plan h' in
    let (vs, v, last) = bind-ok (volumes_read remains.volumes) _ plan h'' in
    (
      _,
      sym (ok-eq last),
      refl,
      record {
        git = state_read-ok _ git g;
        namespace = n;
        volumes = (vs, volumes_read-ok remains.volumes vs v, refl);
        reservation = refl;
      },
    )

inspect-IsSeen :
    (hash : Inspected → Text) (remains : Remains) (raw_login : Text) (seen : Db) (plan : Plan)
    → inspect hash remains raw_login seen ≡ ok plan
    → (s : Inspected) × (plan ≡ plan_of hash remains s)
      × (s.login ≡ to_lower raw_login)
      × IsSeen remains seen s
unfolding inspect
inspect-IsSeen hash remains raw_login seen plan h =
    elim (Bool-cases (is_login (to_lower raw_login))) [
      | inl e ↦ elim (Bool-cases remains.has_cluster) [
        | inl c ↦ inspect_login-IsSeen hash remains (to_lower raw_login) seen plan (rw (e, c) at h)
        | inr c ↦
            let refused : err RecoveryError.no_cluster ≡ ok plan = rw (e, c) at h in absurd (cc)
      ]
      | inr e ↦ let refused : err RecoveryError.invalid_login ≡ ok plan = rw e at h in absurd (cc)
    ]

can_release-IsBare : (s : Inspected) → can_release s ≡ true → IsBare s
can_release-IsBare s e = record {
  registration = ground arith;
  application = ground arith;
  namespace = ground arith;
  persistent_volumes = ground arith;
}

abbrev pub IsRelease :
    (Inspected → Text)
    → Remains
    → Text
    → Option Text
    → Db
    → Db
    → Db × Result RecoveryError Text
    → Type 0
IsRelease hash remains raw_login digest seen db (db', err e) = db' ≡ db
IsRelease hash remains raw_login digest seen db (db', ok login) =
    (s : Inspected) × IsSeen remains seen s
    × IsBare s
    × (login ≡ to_lower raw_login)
    × (s.login ≡ login)
    × (digest ≡ some (hash s))
    × (r : Reservation) × (s.reservation ≡ some r)
    × IsTaken login r db db'

recover_admission_reservation-IsTaken :
    (now : ℕ) (login : Text) (r : Reservation) (actor : Text) (db : Db)
    → any (of_reservation login r.created_at) db.admission_reservations ≡ true
    → (db' : Db) × (recover_admission_reservation now login r.created_at actor db ≡ (db', true))
      × IsTaken login r db db'
unfolding recover_admission_reservation audit
recover_admission_reservation-IsTaken now login r actor db there =
    rw there (_, refl, record { there = there; taken = refl; users = refl })

recover_admission_reservation-absent :
    (now : ℕ) (login : Text) (r : Reservation) (actor : Text) (db : Db)
    → any (of_reservation login r.created_at) db.admission_reservations ≡ false
    → recover_admission_reservation now login r.created_at actor db ≡ (db, false)
unfolding recover_admission_reservation
recover_admission_reservation-absent now login r actor db absent = rw absent refl

is_digest_of-eq :
    (hash : Inspected → Text) (remains : Remains) (plan : Plan) (digest : Option Text)
    → is_digest_of hash remains plan digest ≡ true
    → digest ≡ some plan.digest
is_digest_of-eq hash remains plan none e = absurd (cc)
is_digest_of-eq hash remains plan (some d) e = ap some ((text_beq_iff d plan.digest).0 e)

module _ (hash : Inspected → Text) (remains : Remains) (raw_login : Text) (digest : Option Text)
    (seen db : Db) where
  abbrev Released : Db × Result RecoveryError Text → Type 0
  Released = IsRelease hash remains raw_login digest seen db

  recover-IsRelease :
      (now : ℕ) (actor : Text) (s : Inspected) (found : Option Reservation)
      → IsSeen remains seen s
      → IsBare s
      → s.login ≡ to_lower raw_login
      → digest ≡ some (hash s)
      → s.reservation ≡ found
      → Released (recover hash remains now actor s.login db found)
  recover-IsRelease now actor s none look bare named signed held = refl
  recover-IsRelease now actor s (some r) look bare named signed held =
      elim (Bool-cases (any (of_reservation s.login r.created_at) db.admission_reservations)) [
        | inl e ↦
            let (db', taken, is) = recover_admission_reservation-IsTaken now s.login r actor db e in
            rw taken (s, look, bare, named, refl, signed, r, held, is)
        | inr e ↦ rw (recover_admission_reservation-absent now s.login r actor db e) refl
      ]

  release_plan-IsRelease :
      (now : ℕ) (actor : Text) (plan : Plan) (s : Inspected)
      → plan ≡ plan_of hash remains s
      → s.login ≡ to_lower raw_login
      → IsSeen remains seen s
      → Released (release_plan hash remains now actor digest db (ok plan))
  release_plan-IsRelease now actor plan s same named look =
      rw same
        (elim (Bool-cases
          (can_release s && is_digest_of hash remains (plan_of hash remains s) digest)) [
            | inl e ↦ rw e (
                recover-IsRelease now actor s s.reservation look
                  (can_release-IsBare s (ground arith)) named
                  (is_digest_of-eq hash remains (plan_of hash remains s) digest (ground arith))
                  refl)
            | inr e ↦ rw e refl
          ])

-- A release either changes nothing and is refused, or takes away the one reservation that its
-- inspection saw for the login and that is still there, where the inspection saw no registration, no
-- application, no namespace and no volume of the login and its digest is the one given.
pub release-IsRelease :
    (hash : Inspected → Text) (remains : Remains) (now : ℕ) (raw_login : Text)
    (digest : Option Text) (actor : Text) (seen db : Db)
    → IsRelease hash remains raw_login digest seen db
        (release hash remains now raw_login digest actor seen db)
unfolding release
release-IsRelease hash remains now raw_login digest actor seen db =
    elim (Result-cases (inspect hash remains raw_login seen)) [
      | inl (plan, e) ↦
          let (s, same, named, look) = inspect-IsSeen hash remains raw_login seen plan e in
          rw e (
            release_plan-IsRelease hash remains raw_login digest seen db now actor plan s same named
              look)
      | inr (x, e) ↦ rw e refl
    ]
