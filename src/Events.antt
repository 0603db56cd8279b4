-- ===== src/Events.antt =====
-- Deployment events: apps/backend/src/events/events.repository.ts. A timestamp is its milliseconds;
-- rows of one timestamp are in the order of their ids, which SQLite leaves open. The arithmetic of
-- floating-point numbers is a parameter.
pub mod Cadence
mod Tests
use swkoo_kr.Prelude.{
  ℕ, ◌+◌, ◌-◌, ◌*◌, ◌/◌, Bool, true, false, ◌&&◌, ◌||◌, Option, none, some, List, [], ◌∷◌, ◌++◌,
  if◌then◌else◌, ◌==◌, nat_eq, leb, keep, length, take,
}
use swkoo_kr.Prelude.Texts.{Text, lit, text_eq}

pub data EventSource : Type 0 where
  argocd github : EventSource

pub record DeploymentEventInsert : Type 0 where
  pub source : EventSource
  pub event_type : Text
  pub pipeline_name : Option Text
  pub commit_sha : Option Text
  pub status : Option Text
  pub raw_json : Text

pub record DeploymentEventRow : Type 0 where
  pub id : ℕ
  pub received_at : ℕ
  pub event : DeploymentEventInsert

pub record EventTable : Type 0 where
  pub rows : List DeploymentEventRow
  pub next_id : ℕ

pub record EventSummary : Type 0 where
  pub pipeline_name : Text
  pub window_days : ℕ
  pub deploy_count : ℕ
  pub failure_count : ℕ
  pub last_event_at : Option ℕ
  pub last_event_type : Option Text
  pub mttr_seconds : Option ℕ
  pub avg_interval_seconds : Option ℕ

-- The second result is `lastInsertRowid`.
unfoldable pub insert : ℕ → DeploymentEventInsert → EventTable → EventTable × ℕ
insert now event t = (
  record {
    rows = t.rows ++ record { id = t.next_id; received_at = now; event = event } ∷ [];
    next_id = t.next_id + 1;
  },
  t.next_id,
)

-- `ORDER BY received_at ASC`
unfoldable pub place : DeploymentEventRow → List DeploymentEventRow → List DeploymentEventRow
place r [] = r ∷ []
place r (x ∷ xs) =
    let rest = place r xs in if leb r.received_at x.received_at then r ∷ x ∷ xs else x ∷ rest

unfoldable pub in_order : List DeploymentEventRow → List DeploymentEventRow
unfolding place
in_order [] = []
in_order (r ∷ rows) = place r (in_order rows)

-- `ORDER BY received_at DESC`
unfoldable pub latest_first :
    List DeploymentEventRow → List DeploymentEventRow → List DeploymentEventRow
latest_first [] done = done
latest_first (r ∷ rows) done = latest_first rows (r ∷ done)

unfoldable pub recent : ℕ → EventTable → List DeploymentEventRow
unfolding in_order latest_first
recent limit t = take limit (latest_first (in_order t.rows) [])

abbrev pub is_of : Text → DeploymentEventRow → Bool
is_of pipeline r = elim r.event.pipeline_name [ none ↦ false | some p ↦ p == pipeline ]

abbrev pub is_success : DeploymentEventRow → Bool
is_success r = r.event.event_type == lit "sync_succeeded"

abbrev pub is_failure : DeploymentEventRow → Bool
is_failure r = r.event.event_type == lit "sync_failed"

abbrev pub in_window : Text → ℕ → DeploymentEventRow → Bool
in_window pipeline since r = is_of pipeline r && leb since r.received_at

abbrev newest : List DeploymentEventRow → Option DeploymentEventRow
newest [] = none
newest (r ∷ rows) = some r

abbrev at_of : Option DeploymentEventRow → Option ℕ
at_of none = none
at_of (some r) = some r.received_at

abbrev type_of : Option DeploymentEventRow → Option Text
type_of none = none
type_of (some r) = some r.event.event_type

abbrev recovered : Option ℕ → ℕ → List ℕ → List ℕ
recovered none t rest = rest
recovered (some failed_at) t rest = (t - failed_at) ∷ rest

-- `lastFailureMs` is null or the time of the last failure that no success has followed.
unfoldable pub recovery_times : Option ℕ → List DeploymentEventRow → List ℕ
recovery_times last_failure [] = []
recovery_times last_failure (e ∷ seq) =
    let next =
      if is_failure e then some e.received_at else if is_success e then none else last_failure in
    let rest = recovery_times next seq in
    if is_failure e
    then rest
    else if is_success e
    then recovered last_failure e.received_at rest
    else rest

unfoldable pub intervals : List DeploymentEventRow → List ℕ
intervals [] = []
intervals (a ∷ []) = []
intervals (a ∷ b ∷ rest) = (b.received_at - a.received_at) ∷ intervals (b ∷ rest)

-- Numbers of JavaScript: the quotient of milliseconds by 1000, and `Math.round` of a quotient by a
-- length.
pub record Floats : Type 1 where
  pub Number : Type 0
  pub nought : Number
  pub seconds : ℕ → Number
  pub plus : Number → Number → Number
  pub round_quotient : Number → ℕ → ℕ

-- `reduce((a, b) => a + b, …)`
unfoldable pub sum : (floats : Floats) → floats.Number → List ℕ → floats.Number
sum floats total [] = total
sum floats total (x ∷ xs) = sum floats (floats.plus total (floats.seconds x)) xs

unfoldable pub mean_seconds : Floats → List ℕ → Option ℕ
unfolding sum
mean_seconds floats [] = none
mean_seconds floats (x ∷ xs) =
    some (floats.round_quotient (sum floats floats.nought (x ∷ xs)) (length (x ∷ xs)))

abbrev pub since_ms : ℕ → ℕ → ℕ
since_ms now window_days = now - window_days * 24 * 60 * 60 * 1000

abbrev pub is_sync : Text → ℕ → DeploymentEventRow → Bool
is_sync pipeline since r = in_window pipeline since r && (is_success r || is_failure r)

abbrev pub sequence : Text → ℕ → EventTable → List DeploymentEventRow
sequence pipeline since t = in_order (keep (is_sync pipeline since) t.rows)

unfoldable pub summary : Floats → ℕ → Text → ℕ → EventTable → EventSummary
unfolding latest_first in_order recovery_times intervals mean_seconds
summary floats now pipeline window_days t =
    let since = since_ms now window_days in
    let last = newest (latest_first (in_order (keep (is_of pipeline) t.rows)) []) in
    let seq = sequence pipeline since t in
    record {
      pipeline_name = pipeline;
      window_days = window_days;
      deploy_count = length (keep (λ r. in_window pipeline since r && is_success r) t.rows);
      failure_count = length (keep (λ r. in_window pipeline since r && is_failure r) t.rows);
      last_event_at = at_of last;
      last_event_type = type_of last;
      mttr_seconds = mean_seconds floats (recovery_times none seq);
      avg_interval_seconds = mean_seconds floats (intervals (keep is_success seq));
    }
