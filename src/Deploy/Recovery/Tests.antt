-- ===== src/Deploy/Recovery/Tests.antt =====
-- Recovery at concrete answers: ann has a reservation and nothing else.
use swkoo_kr.Prelude.{◌≡◌, refl, true, none, some, [], ◌∷◌, ◌++◌, ok, err}
use swkoo_kr.Prelude.Texts.{Text, lit, text_beq, to_lower, lower_unit}
use swkoo_kr.Accounts.Db.{Db}
use swkoo_kr.Accounts.Users.{audit}
use swkoo_kr.Accounts.Reservations.{reserve_admission, recover_admission_reservation}
use swkoo_kr.Accounts.Reach.{empty_db}
use swkoo_kr.Github.Commit.{HttpFailure}
use swkoo_kr.Deploy.Current.{read_manifest_file, get_recovery_registration_state}
use swkoo_kr.Deploy.Recovery.{RecoveryError, Remains, Inspected, is_login, inspect, release}
use swkoo_kr.Deploy.Recovery.Safe.{IsRelease, release-IsRelease}

abbrev missing : HttpFailure
missing = record { status = some 404; message = [] }

abbrev nothing : Remains
nothing = record {
  has_cluster = true;
  state = record { argo_configured = true; registration = err missing; app = ok none };
  namespace = err missing;
  volumes = ok (some (lit "user-bob") ∷ none ∷ []);
}

abbrev with_volume : Remains
with_volume = record nothing { volumes = ok (some (lit "user-ann") ∷ []) }

-- Any hash will do.
abbrev hash : Inspected → Text
hash s = s.login ++ lit "!"

abbrev reserved : Db
reserved = reserve_admission (lit "ann") 7 (reserve_admission (lit "bob") 5 empty_db)

abbrev again : Db
again = (release hash nothing 9 (lit "Ann") (some (lit "ann!")) (lit "op") reserved reserved).0

outcomes :
    ((release hash nothing 9 (lit "Ann") (some (lit "ann!")) (lit "op") reserved reserved).1
      ≡ ok (lit "ann"))
    × (again.admission_reservations ≡ record { login = lit "bob"; created_at = 5 } ∷ [])
    × ((release hash nothing 9 (lit "ann") (some (lit "old")) (lit "op") reserved reserved).1
        ≡ err RecoveryError.not_safe)
    × ((release hash with_volume 9 (lit "ann") (some (lit "ann!")) (lit "op") reserved reserved).1
        ≡ err RecoveryError.not_safe)
    × ((release hash nothing 9 (lit "ann") (some (lit "ann!")) (lit "op") reserved again).1
        ≡ err RecoveryError.changed)
    × ((release hash nothing 9 (lit "a_b") (some (lit "a_b!")) (lit "op") reserved reserved).1
        ≡ err RecoveryError.invalid_login)
unfolding lit text_beq to_lower lower_unit audit reserve_admission recover_admission_reservation
    read_manifest_file get_recovery_registration_state is_login inspect release
outcomes = (refl, refl, refl, refl, refl, refl)

release-IsRelease_example :
    IsRelease hash nothing
      (lit "Ann")
      (some (lit "ann!"))
      reserved
      reserved
      (release hash nothing 9 (lit "Ann") (some (lit "ann!")) (lit "op") reserved reserved)
release-IsRelease_example =
    release-IsRelease hash nothing 9 (lit "Ann") (some (lit "ann!")) (lit "op") reserved reserved
