-- ===== src/Domain/Service/State.antt =====
-- What the domain service reads and writes: the table, the cooldowns, the certificate cache, the
-- audit log, the operator's notices; and the outside, as it answers during one request.
use swkoo_kr.Prelude.{ℕ, Option, List, [], ◌∷◌, ◌++◌, Result, if◌then◌else◌}
use swkoo_kr.Prelude.Texts.{Text, lit}
use swkoo_kr.Domain.Validation.{Parsed, RejectReason}
use swkoo_kr.Domain.Repository.{Table, FailureReason, is_truthy}
use swkoo_kr.Domain.Dns.{Network}
use swkoo_kr.Domain.CertCache.{Cache, KubeRead}

pub data DomainAction : Type 0 where
  domain_register domain_verify_failed domain_verified domain_commit_failed : DomainAction
  domain_delete_failed domain_deleted domain_active : DomainAction

-- `metaJson`, before it is printed.
pub data AuditMeta : Type 0 where
  no_meta : AuditMeta
  commit_sha : Text → AuditMeta
  error_message : Text → AuditMeta

pub record AuditEntry : Type 0 where
  pub actor : Text
  pub action : DomainAction
  pub target : Text
  pub reason : Option FailureReason
  pub meta : AuditMeta

pub data FailureStage : Type 0 where
  verify_stage commit_stage delete_stage : FailureStage

pub record OperatorFailureNotice : Type 0 where
  pub stage : FailureStage
  pub actor : Text
  pub app_name : Text
  pub domain : Text
  pub reason : FailureReason
  pub last_error : Option Text

-- `lastVerifyAttempt` is kept by process, the rest of the state outlives it.
pub record State : Type 0 where
  pub table : Table
  pub last_verify_attempt : List (Text × ℕ)
  pub certs : Cache
  pub audit : List AuditEntry
  pub notices : List OperatorFailureNotice

-- The commit that `commitFilesAtomic` is asked for.
pub record CommitRequest : Type 0 where
  pub owner : Text
  pub repo : Text
  pub branch : Text
  pub files : List (Text × Text)
  pub delete_paths : List Text
  pub message : Text
  pub token : Text

-- GitHub: an installation token with write access, a file's content, a commit's SHA; or the
-- message of the error that is thrown.
pub record Github : Type 0 where
  pub token_for : Text → Text → Result Text Text
  pub file : Text → Text → Text → Text → Result Text Text
  pub commit : CommitRequest → Result Text Text

pub record World : Type 0 where
  pub now : ℕ
  pub parse : Text → Parsed
  pub network : Network
  pub github : Github
  pub kube : Text → Text → KubeRead
  pub uuid : Text  -- of `randomUUID()`, with the dashes taken out
  pub domains_base : Text
  pub deploy_owner : Text
  pub webhook_url : Option Text

-- The login and the app of `CurrentDeployment`.
pub record App : Type 0 where
  pub login : Text
  pub app_name : Text

-- The exceptions that a request throws.
pub data Failure : Type 0 where
  rejected : RejectReason → Failure
  rejected_apex : Text → Text → Failure
  domain_already_registered : Text → Failure
  domain_taken : Failure
  constraint : Failure
  domain_not_registered : Failure
  domain_verify_cooldown : ℕ → Failure
  thrown : Text → Failure

-- `${login}/${appName}:${domain}`
abbrev pub target_of : Text → Text → Text → Text
target_of login app_name domain = login ++ (lit "/" ++ (app_name ++ (lit ":" ++ domain)))

abbrev pub audited : AuditEntry → State → State
audited e s = record s { audit = s.audit ++ e ∷ [] }

-- `notifyOperatorOfFailure`: nothing is sent where no channel is configured.
unfoldable pub notify_operator_of_failure : World → OperatorFailureNotice → State → State
notify_operator_of_failure w n s =
    if is_truthy w.webhook_url then record s { notices = s.notices ++ n ∷ [] } else s
