-- ===== src/Domain/Service/Sound.antt =====
-- The invariant of the domain service: the table's keys are apart, and each row has what its
-- status stands for.
pub mod Steps
pub mod Requests
use swkoo_kr.Prelude.{
  ℕ, ◌≡◌, true, false, none, some, arith, is_some, ◌⊎◌, inl, inr, All, Bool-cases,
}
use swkoo_kr.Prelude.Rows.{All-update_where}
use swkoo_kr.Prelude.Texts.{Text}
use swkoo_kr.Domain.Repository.{
  CustomDomainRow, CustomDomainStatus, pending, verified, applying, active, error, StatusChange,
  Table, of_id, update_row, set_status,
}
use swkoo_kr.Domain.Repository.Unique.{IsTable}
use swkoo_kr.Domain.Service.State.{State}

-- A pending row has no commit and no error; a verified row has no error left; an applying or an
-- active row was verified, has its commit and no error; an error is recorded, and a row with a
-- commit was verified at some time.
abbrev pub PhaseHolds : CustomDomainStatus → CustomDomainRow → Type 0
PhaseHolds pending r = (r.applied_commit ≡ none) × (r.verified_at ≡ none) × (r.last_error ≡ none)
PhaseHolds verified r =
    (is_some r.verified_at ≡ true) × (r.last_error ≡ none) × (r.last_error_reason ≡ none)
PhaseHolds error r =
    (is_some r.last_error ≡ true) × ((r.applied_commit ≡ none) ⊎ (is_some r.verified_at ≡ true))
PhaseHolds _ r =
    (is_some r.applied_commit ≡ true)
    × (is_some r.verified_at ≡ true)
    × (r.last_error ≡ none)
    × (r.last_error_reason ≡ none)

pub record RowIsSound (r : CustomDomainRow) : Type 0 where
  pub phase : PhaseHolds r.status r

pub record TableIsSound (t : Table) : Type 0 where
  pub table : IsTable t
  pub rows : All RowIsSound t.rows

abbrev pub IsSound : State → Type 0
IsSound s = TableIsSound s.table

committed_after_proof :
    (status : CustomDomainStatus) (r : CustomDomainRow)
    → PhaseHolds status r
    → (r.applied_commit ≡ none) ⊎ (is_some r.verified_at ≡ true)
committed_after_proof pending r h = inl h.0
committed_after_proof verified r h = inr h.0
committed_after_proof error r h = h.1
committed_after_proof applying r h = inr h.1
committed_after_proof active r h = inr h.1

-- An update of the rows under one id keeps a predicate of rows if it does so there.
pub All-update_row :
    (P Q : CustomDomainRow → Type 0) (id : ℕ) (f : CustomDomainRow → CustomDomainRow) (t : Table)
    → ((r : CustomDomainRow) → r.id ≡ id → P r → Q (f r))
    → ((r : CustomDomainRow) → of_id id r ≡ false → P r → Q r)
    → All P t.rows
    → All Q (update_row id f t).rows
All-update_row P Q id f t hit miss h =
    All-update_where (of_id id) f P Q t.rows
      (λ r p. elim (Bool-cases (of_id id r)) [
        | inl e ↦ rw e (hit r (ground arith) p)
        | inr e ↦ rw e (miss r e p)
      ])
      h

-- Any sound row may fail.
pub fail-RowIsSound :
    (now : ℕ) (message : Text) (c : StatusChange) (r : CustomDomainRow)
    → c.last_error ≡ some message
    → c.verified_at ≡ none
    → RowIsSound r
    → RowIsSound (set_status now error c r)
unfolding set_status
fail-RowIsSound now message c r e v h = record {
  phase = (ground arith, ground (arith, committed_after_proof r.status r h.phase));
}
