-- ===== src/Domain/Service/Sound/Steps.antt =====
-- Each write of a request keeps the invariant.
use mathlib.Core.Path.{subst}
use swkoo_kr.Prelude.{
  ℕ, ◌≡◌, refl, sym, ap, ◌∙◌, Bool, true, false, ◌&&◌, none, some, List, arith, is_some, ok, inl,
  inr, All, Bool-cases, find,
}
use swkoo_kr.Prelude.Rows.{All-map, All-both, All-keep, All-append_one}
use swkoo_kr.Prelude.Texts.{Text}
use swkoo_kr.Domain.Repository.{
  CustomDomainRow, verified, applying, active, error, StatusChange, no_change, Table, of_id,
  update_row, set_status, set_applied, set_no_error, update_status, mark_applied, clear_error,
  delete, create, CreateCustomDomainInput, of_app,
}
use swkoo_kr.Domain.Repository.Unique.{
  IsTable, update_row-IsTable, set_status-KeepsKeys, set_applied-KeepsKeys, set_no_error-KeepsKeys,
  create-IsTable, create-ok, delete-IsTable,
}
use swkoo_kr.Domain.Repository.Current.{IsCurrent, IsCurrent-at}
use swkoo_kr.Domain.Service.State.{State, World}
use swkoo_kr.Domain.Service.Info.{activate, settle, to_info, is_applying}
use swkoo_kr.Domain.Service.Verify.{promote, proved_at}
use swkoo_kr.Domain.Service.Sound.{
  RowIsSound, PhaseHolds, TableIsSound, IsSound, All-update_row, fail-RowIsSound,
}

-- A failure may be written to any row.
pub fail-IsSound :
    (now id : ℕ) (message : Text) (c : StatusChange) (t : Table)
    → c.last_error ≡ some message
    → c.verified_at ≡ none
    → TableIsSound t
    → TableIsSound (update_status now id error c t).0
unfolding update_status
fail-IsSound now id message c t e v h = record {
  table = update_row-IsTable id _ t (set_status-KeepsKeys now error c) h.table;
  rows =
      All-update_row RowIsSound RowIsSound id _ t
        (λ r _ sound. fail-RowIsSound now message c r e v sound) (λ r _ sound. sound) h.rows;
}

-- In the middle of a request: the rows under an id satisfy `P`, the others are sound.
pub record Stage (id : ℕ) (P : CustomDomainRow → Type 0) (r : CustomDomainRow) : Type 0 where
  pub miss : of_id id r ≡ false → RowIsSound r
  pub hit : of_id id r ≡ true → P r

module _ (id : ℕ) where
  Stage-open : (rows : List CustomDomainRow) → All RowIsSound rows → All (Stage id RowIsSound) rows
  Stage-open rows h = All-map _ _ rows (λ r sound. record { miss = λ _. sound; hit = λ _. sound }) h

  Stage-close : (rows : List CustomDomainRow) → All (Stage id RowIsSound) rows → All RowIsSound rows
  Stage-close rows h =
      All-map _ _ rows
        (λ r st. elim (Bool-cases (of_id id r)) [ inl e ↦ st.hit e | inr e ↦ st.miss e ]) h

  Stage-update :
      (P Q : CustomDomainRow → Type 0) (f : CustomDomainRow → CustomDomainRow) (t : Table)
      → ((r : CustomDomainRow) → (f r).id ≡ r.id)
      → ((r : CustomDomainRow) → P r → Q (f r))
      → All (Stage id P) t.rows
      → All (Stage id Q) (update_row id f t).rows
  Stage-update P Q f t same keeps h =
      All-update_row (Stage id P) (Stage id Q) id f t
        (λ r e st. record {
          miss = λ u. absurd (ground (arith, same r));
          hit = λ _. keeps r (st.hit (ground arith));
        })
        (λ r e st. record { miss = st.miss; hit = λ u. absurd (cc (e, u)) }) h

-- A row that is verified now.
pub record IsVerifiedRow (r : CustomDomainRow) : Type 0 where
  pub status : r.status ≡ verified
  pub proved : PhaseHolds verified r

record IsClear (r : CustomDomainRow) : Type 0 where
  error : r.last_error ≡ none
  reason : r.last_error_reason ≡ none

record IsCommitted (r : CustomDomainRow) : Type 0 where
  proved : PhaseHolds verified r
  commit : is_some r.applied_commit ≡ true

-- A table in which the row under an id was just verified.
pub record IsPromoted (id : ℕ) (t : Table) : Type 0 where
  pub table : IsTable t
  pub rows : All (Stage id IsVerifiedRow) t.rows

pub promote-IsPromoted :
    (w : World) (row : CustomDomainRow) (t : Table)
    → TableIsSound t
    → IsPromoted row.id (promote w row t)
unfolding promote clear_error update_status set_status set_no_error
promote-IsPromoted w row t h = record {
  table =
      update_row-IsTable row.id _ _ (set_status-KeepsKeys w.now verified (proved_at w.now))
        (update_row-IsTable row.id _ t (set_no_error-KeepsKeys w.now) h.table);
  rows =
      Stage-update row.id IsClear IsVerifiedRow _ (clear_error w.now row.id t) (λ r. refl)
        (λ r c. record { status = refl; proved = (refl, c.error, c.reason) })
        (Stage-update row.id RowIsSound IsClear _ t (λ r. refl)
          (λ r _. record { error = refl; reason = refl }) (Stage-open row.id t.rows h.rows));
}

pub IsPromoted-IsSound : (id : ℕ) (t : Table) → IsPromoted id t → TableIsSound t
IsPromoted-IsSound id t h = record {
  table = h.table;
  rows = Stage-close id t.rows (
      All-map _ _ t.rows
        (λ r st. record {
          miss = st.miss;
          hit = λ e. record {
            phase = subst (λ p. PhaseHolds p r) (sym (st.hit e).status) (st.hit e).proved;
          };
        })
        h.rows);
}

-- The commit's SHA, and the step to applying, on verified rows.
pub applied-IsSound :
    (now id : ℕ) (sha : Text) (t : Table)
    → IsPromoted id t
    → TableIsSound (update_status now id applying no_change (mark_applied now id sha t).0).0
unfolding update_status mark_applied set_status set_applied
applied-IsSound now id sha t h = record {
  table =
      update_row-IsTable id _ _ (set_status-KeepsKeys now applying no_change)
        (update_row-IsTable id _ t (set_applied-KeepsKeys now sha) h.table);
  rows = Stage-close id _ (
      Stage-update id IsCommitted RowIsSound _ (mark_applied now id sha t).0 (λ r. refl)
        (λ r c. record { phase = (c.commit, c.proved.0, c.proved.1, c.proved.2) })
        (Stage-update id IsVerifiedRow IsCommitted _ t (λ r. refl)
          (λ r v. record { proved = v.proved; commit = refl }) h.rows));
}

pub delete-IsSound : (id : ℕ) (t : Table) → TableIsSound t → TableIsSound (delete id t)
unfolding delete
delete-IsSound id t h = record {
  table = delete-IsTable id t h.table;
  rows = All-keep RowIsSound _ t.rows h.rows;
}

pub create-IsSound :
    (now : ℕ) (i : CreateCustomDomainInput) (t t' : Table) (row : CustomDomainRow)
    → TableIsSound t
    → find (of_app i.login i.app_name) t.rows ≡ none
    → create now i t ≡ ok (t', row)
    → TableIsSound t'
create-IsSound now i t t' row h free e = record {
  table = create-IsTable now i t t' row h.table free e;
  rows =
      let (_, table, made) = create-ok now i t t' row e in
      rw (table, made)
        (All-append_one RowIsSound t.rows _ h.rows (record { phase = (refl, refl, refl) }));
}

-- The step from applying to active, on the row as it stands in the table.
activate-IsSound :
    (w : World) (row : CustomDomainRow) (s : State)
    → row.status ≡ applying
    → IsSound s
    → IsCurrent row s.table
    → IsSound (activate w row s).0
unfolding activate update_status set_status
activate-IsSound w row s e h current = record {
  table = update_row-IsTable row.id _ s.table (set_status-KeepsKeys w.now active no_change) h.table;
  rows =
      All-update_row _ RowIsSound row.id _ s.table
        (λ r k p. record {
          phase =
              subst (λ q. PhaseHolds q r) (ap (λ (x : CustomDomainRow). x.status) (p.1 k) ∙ e)
                p.0.phase;
        })
        (λ r _ p. p.0)
        (All-both RowIsSound (λ r. r.id ≡ row.id → r ≡ row) s.table.rows h.rows
          (IsCurrent-at row s.table current));
}

settle-IsSound :
    (w : World) (ready : Bool) (row : CustomDomainRow) (s : State)
    → IsSound s
    → IsCurrent row s.table
    → IsSound (settle w ready row s).0
unfolding settle
settle-IsSound w ready row s h current = elim (Bool-cases (is_applying row.status && ready)) [
  | inl e ↦ rw e (activate-IsSound w row s (ground arith) h current)
  | inr e ↦ rw e h
]

pub to_info-IsSound :
    (w : World) (row : CustomDomainRow) (s : State)
    → IsSound s
    → IsCurrent row s.table
    → IsSound (to_info w row s).0
unfolding to_info
to_info-IsSound w row s h current = settle-IsSound w _ row _ h current
