-- ===== src/Events/Tests.antt =====
-- A week of deployments.
use swkoo_kr.Prelude.{ℕ, ◌+◌, ◌*◌, ◌/◌, is_some, leb, ◌≡◌, refl, none, some, List, [], ◌∷◌}
use swkoo_kr.Prelude.Texts.{Text, lit, text_beq}
use swkoo_kr.Events.{
  Floats, EventTable, DeploymentEventInsert, EventSource, insert, place, in_order, latest_first,
  recent, recovery_times, intervals, sum, mean_seconds, summary,
}
use swkoo_kr.Events.Cadence.{summary-intervals}

run : Unit {0}
unfolding lit text_beq insert place in_order latest_first recent recovery_times intervals sum
    mean_seconds summary
run = tt

abbrev event : Text → DeploymentEventInsert
event kind = record {
  source = EventSource.argocd;
  event_type = kind;
  pipeline_name = some (lit "web");
  commit_sha = none;
  status = none;
  raw_json = lit "{}";
}

abbrev store_all : List (ℕ × Text) → EventTable → EventTable
store_all [] t = t
store_all ((at, kind) ∷ events) t = store_all events (insert at (event kind) t).0

abbrev table : EventTable
table =
    store_all
      ((604801000, lit "sync_succeeded")
        ∷ (604810000, lit "sync_failed")
        ∷ (604831600, lit "sync_succeeded")
        ∷ (604840000, lit "sync_succeeded")
        ∷ [])
      (record { rows = []; next_id = 1 })

-- Arithmetic that is exact in milliseconds.
abbrev exact : Floats
exact = record {
  Number = ℕ;
  nought = 0;
  seconds = λ x. x;
  plus = λ x y. x + y;
  round_quotient = λ total count. (2 * total + 1000 * count) / (2000 * count);
}

tests :
    ((summary exact 604900000 (lit "web") 7 table).mttr_seconds ≡ some 22)
    × ((summary exact 604900000 (lit "web") 7 table).avg_interval_seconds ≡ some 20)
    × ((summary exact 604900000 (lit "web") 7 table).deploy_count ≡ 3)
    × ((summary exact 604900000 (lit "api") 7 table).mttr_seconds ≡ none)
unfolding run
tests = (refl, refl, refl, refl)

summary-intervals_example :
    is_some (summary exact 604900000 (lit "web") 7 table).avg_interval_seconds
    ≡ leb 2 (summary exact 604900000 (lit "web") 7 table).deploy_count
summary-intervals_example = summary-intervals exact 604900000 (lit "web") 7 table
