-- ===== src/Accounts/Reservations.antt =====
-- The statements of onboarding/users.repository.ts on the table `admission_reservations`.
use swkoo_kr.Prelude.{
  ℕ, Bool, true, false, not, ◌&&◌, some, [], ◌∷◌, ◌++◌, if◌then◌else◌, ◌==◌, nat_eq, any, keep,
}
use swkoo_kr.Prelude.Texts.{Text, lit, text_eq, to_lower}
use swkoo_kr.Prelude.Integers.{decimal}
use swkoo_kr.Accounts.Db.{Db, Reservation, AuditLogInsert}
use swkoo_kr.Accounts.Users.{audit}

abbrev pub of_login : Text → Reservation → Bool
of_login login r = r.login == login

-- `ON CONFLICT(login) DO NOTHING`
unfoldable pub reserve_admission : Text → ℕ → Db → Db
reserve_admission login at db =
    if any (of_login login) db.admission_reservations then db else record db {
      admission_reservations =
          db.admission_reservations ++ record { login = login; created_at = at } ∷ [];
    }

unfoldable pub release_admission_reservation : Text → Db → Db
release_admission_reservation login db = record db {
  admission_reservations = keep (λ r. not (of_login (to_lower login) r)) db.admission_reservations;
}

abbrev pub of_reservation : Text → ℕ → Reservation → Bool
of_reservation login created_at r = of_login login r && r.created_at == created_at

abbrev recovered : Text → ℕ → Text → AuditLogInsert
recovered login created_at actor = record {
  actor = actor;
  action = lit "ADMISSION_RESERVATION_RECOVERED";
  target = some login;
  reason = some (lit "NO_REGISTERED_OR_LIVE_RESOURCES");
  meta_json = some (lit "{\"createdAt\":" ++ (decimal created_at ++ lit "}"));
}

-- A reservation is recovered by the time at which it was seen, once.
unfoldable pub recover_admission_reservation : ℕ → Text → ℕ → Text → Db → Db × Bool
unfolding audit
recover_admission_reservation now login created_at actor db =
    if any (of_reservation login created_at) db.admission_reservations
    then (
      audit now (recovered login created_at actor) (record db {
        admission_reservations =
            keep (λ r. not (of_reservation login created_at r)) db.admission_reservations;
      }),
      true,
    )
    else (db, false)
