-- ===== src/Domain/Service/Reach.antt =====
-- The states that the domain service reaches: requests in any order, a process that stops between
-- the two writes of `verify` or is started again, and the clean-up of a user's rows.
use swkoo_kr.Prelude.{ℕ, ◌≡◌, some, []}
use swkoo_kr.Prelude.Rows.{All-keep}
use swkoo_kr.Prelude.Texts.{Text}
use swkoo_kr.Domain.Repository.{CustomDomainRow, Table, find_by_login_app, delete_by_login}
use swkoo_kr.Domain.Repository.Unique.{Apart}
use swkoo_kr.Domain.Service.State.{State, World, App}
use swkoo_kr.Domain.Service.Register.{get, register}
use swkoo_kr.Domain.Service.Verify.{verify, promote}
use swkoo_kr.Domain.Service.Delete.{delete_domain}
use swkoo_kr.Domain.Service.Sound.{TableIsSound, IsSound, RowIsSound}
use swkoo_kr.Domain.Service.Sound.Steps.{promote-IsPromoted, IsPromoted-IsSound}
use swkoo_kr.Domain.Service.Sound.Requests.{
  get-IsSound, register-IsSound, verify-IsSound, delete_domain-IsSound,
}
use swkoo_kr.Prelude.Rows.{AllPairs-keep}

-- The empty table, as `onModuleInit` creates it.
abbrev pub init : State
init = record {
  table = record { rows = []; next_id = 1 };
  last_verify_attempt = [];
  certs = [];
  audit = [];
  notices = [];
}

pub data Step : State → State → Type 0 where
  get_request : (w : World) (app : App) (s : State) → Step s (get w app s).0
  register_request :
      (w : World) (user_id : ℕ) (app : App) (domain : Text) (s : State)
      → Step s (register w user_id app domain s).0
  verify_request : (w : World) (app : App) (s : State) → Step s (verify w app s).0
  delete_request : (w : World) (app : App) (s : State) → Step s (delete_domain w app s).0
  -- `verify` ends after `updateStatus(row.id, 'verified')`.
  interrupted :
      (w : World) (app : App) (row : CustomDomainRow) (s : State)
      → find_by_login_app app.login app.app_name s.table ≡ some row
      → Step s (record s { table = promote w row s.table; last_verify_attempt = []; certs = [] })
  restarted : (s : State) → Step s (record s { last_verify_attempt = []; certs = [] })
  user_removed :
      (login : Text) (s : State) → Step s (record s { table = (delete_by_login login s.table).0 })

pub data Reach (s : State) : State → Type 0 where
  here : Reach s s
  next : {t u : State} → Reach s t → Step t u → Reach s u

user_removed-IsSound :
    (login : Text) (t : Table) → TableIsSound t → TableIsSound (delete_by_login login t).0
unfolding delete_by_login
user_removed-IsSound login t h = record {
  table = record {
    below = All-keep _ _ t.rows h.table.below;
    apart = AllPairs-keep Apart _ t.rows h.table.apart;
  };
  rows = All-keep RowIsSound _ t.rows h.rows;
}

Step-IsSound : {s t : State} → Step s t → IsSound s → IsSound t
Step-IsSound (get_request w app s) h = get-IsSound w app s h
Step-IsSound (register_request w user_id app domain s) h = register-IsSound w user_id app domain s h
Step-IsSound (verify_request w app s) h = verify-IsSound w app s h
Step-IsSound (delete_request w app s) h = delete_domain-IsSound w app s h
Step-IsSound (interrupted w app row s found) h =
    IsPromoted-IsSound row.id _ (promote-IsPromoted w row s.table h)
Step-IsSound (restarted s) h = h
Step-IsSound (user_removed login s) h = user_removed-IsSound login s.table h

init-IsSound : IsSound init
init-IsSound = record { table = record { below = tt; apart = (tt) }; rows = tt }

-- Every state that is reached from the empty table is sound, whatever DNS, GitHub and the cluster
-- answer, also where the process stops between the two writes of `verify`.
pub Reach-IsSound : {s : State} → Reach init s → IsSound s
Reach-IsSound here = init-IsSound
Reach-IsSound (next r st) = Step-IsSound st (Reach-IsSound r)
