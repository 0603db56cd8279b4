-- ===== src/Deploy/Unregister/Freed.antt =====
-- What a deletion frees, and what it keeps where it fails.
use swkoo_kr.Prelude.{◌≡◌, none, [], find, Result, ok, err}
use swkoo_kr.Prelude.Texts.{Text, text_eq, to_lower}
use swkoo_kr.Accounts.Users.{find_by_login}
use swkoo_kr.Accounts.Reservations
use swkoo_kr.Domain.Repository
use swkoo_kr.Deploy.Handler.{Platform}
use swkoo_kr.Deploy.Unregister.{World, DeleteError}

module _ (w : World) (user_login : Text) where
  -- No custom domain and no reservation of the login is left.
  pub record IsFreed (s : Platform) : Type 0 where
    pub domains : Repository.find_by_login (to_lower user_login) s.domains ≡ []
    pub reservations :
        find (Reservations.of_login (to_lower (to_lower user_login))) s.db.admission_reservations
        ≡ none

  -- What an error leaves: the tables but for the audit entries, and the repositories.
  abbrev IsLeft : Platform → Platform → Type 0
  IsLeft s t =
      (t.domains ≡ s.domains)
      × (t.db.admission_reservations ≡ s.db.admission_reservations)
      × (t.written ≡ s.written)

  abbrev IsLeftByError : Platform → Platform × Result DeleteError Text → Type 0
  IsLeftByError s (t, ok commit) = Unit
  IsLeftByError s (t, err thrown) = IsLeft s t

  -- Freed where the deletion returns, left as it was where it throws.
  abbrev pub IsOutcome : Platform → Platform × Result DeleteError Text → Type 0
  IsOutcome s (t, ok commit) = IsFreed t
  IsOutcome s (t, err thrown) = IsLeft s t
