-- ===== src/Domain/Service/Response.antt =====
-- What the requests of the domain service share: responses, audit entries, and the row of an app.
use swkoo_kr.Prelude.{Option, nat_eq, Result, ok}
use swkoo_kr.Prelude.Texts.{text_eq}
use swkoo_kr.Domain.Repository.{CustomDomainRow, FailureReason}
use swkoo_kr.Domain.Service.State.{State, Failure, AuditMeta, AuditEntry, DomainAction, target_of}
use swkoo_kr.Domain.Service.Info.{DomainInfo}

abbrev pub Response : Type 0 → Type 0
Response A = State × Result Failure A

abbrev pub respond : State × DomainInfo → Response DomainInfo
respond (s, info) = (s, ok info)

abbrev pub entry_for :
    CustomDomainRow → DomainAction → Option FailureReason → AuditMeta → AuditEntry
entry_for row action reason meta = record {
  actor = row.login;
  action = action;
  target = target_of row.login row.app_name row.domain;
  reason = reason;
  meta = meta;
}
