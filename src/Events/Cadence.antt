-- ===== src/Events/Cadence.antt =====
-- When a summary has an average interval.
use swkoo_kr.Prelude.{
  ℕ, ◌≡◌, refl, ap, ◌∙◌, Bool, ◌&&◌, List, [], ◌∷◌, arith, inl, inr, Bool-cases, is_some, leb, keep,
  length,
}
use swkoo_kr.Prelude.Texts.{Text, text_eq}
use swkoo_kr.Events.{
  Floats, DeploymentEventRow, EventTable, place, in_order, intervals, mean_seconds, is_sync,
  in_window, is_success, sequence, since_ms, summary,
}

abbrev count : (DeploymentEventRow → Bool) → List DeploymentEventRow → ℕ
count q rows = length (keep q rows)

place-count :
    (q : DeploymentEventRow → Bool) (r : DeploymentEventRow) (rows : List DeploymentEventRow)
    → count q (place r rows) ≡ count q (r ∷ rows)
unfolding place
place-count q r [] = refl
place-count q r (x ∷ rows) = elim (Bool-cases (leb r.received_at x.received_at)) [
  | inl e ↦ rw e refl
  | inr e ↦ rw e (ground (arith, place-count q r rows))
]

in_order-count :
    (q : DeploymentEventRow → Bool) (rows : List DeploymentEventRow)
    → count q (in_order rows) ≡ count q rows
unfolding in_order
in_order-count q [] = refl
in_order-count q (r ∷ rows) =
    place-count q r (in_order rows) ∙ ground (arith, in_order-count q rows)

sync-count :
    (pipeline : Text) (since : ℕ) (rows : List DeploymentEventRow)
    → count is_success (keep (is_sync pipeline since) rows)
      ≡ count (λ r. in_window pipeline since r && is_success r) rows
sync-count pipeline since [] = refl
sync-count pipeline since (r ∷ rows) = ground (arith, sync-count pipeline since rows)

mean-intervals :
    (floats : Floats) (rows : List DeploymentEventRow)
    → is_some (mean_seconds floats (intervals rows)) ≡ leb 2 (length rows)
unfolding mean_seconds intervals
mean-intervals floats [] = refl
mean-intervals floats (a ∷ []) = refl
mean-intervals floats (a ∷ b ∷ rows) = ground arith

-- A summary has an average interval just if it counts two deployments or more in its window, however
-- numbers are rounded and in whichever order the events were stored.
pub summary-intervals :
    (floats : Floats) (now : ℕ) (pipeline : Text) (window_days : ℕ) (t : EventTable)
    → is_some (summary floats now pipeline window_days t).avg_interval_seconds
      ≡ leb 2 (summary floats now pipeline window_days t).deploy_count
unfolding summary
summary-intervals floats now pipeline window_days t =
    let since = since_ms now window_days in
    mean-intervals floats (keep is_success (sequence pipeline since t))
    ∙ ap (leb 2) (
        in_order-count is_success (keep (is_sync pipeline since) t.rows)
        ∙ sync-count pipeline since t.rows)
