-- ===== src/Access/Subdomain.antt =====
-- deploy/subdomain.ts: the form of a chosen subdomain.
pub mod Label
use swkoo_kr.Prelude.{
  ℕ, Bool, true, false, not, ◌&&◌, ◌||◌, Option, none, some, List, [], ◌∷◌, if◌then◌else◌, ◌==◌,
  any, length, leb, Result, ok, err, map,
}
use swkoo_kr.Prelude.Texts.{Text, lit, text_eq, is_digit, is_lower}
use swkoo_kr.Domain.Validation.{is_label_unit}

pub data SubdomainReason : Type 0 where
  format_reason reserved_reason : SubdomainReason

-- `[a-z0-9]`
abbrev pub is_alnum : ℕ → Bool
is_alnum c = is_lower c || is_digit c

-- `[a-z0-9-]*[a-z0-9]$`
abbrev pub ends_well : Text → Bool
ends_well [] = false
ends_well (c ∷ []) = is_alnum c
ends_well (c ∷ d ∷ s) = is_label_unit c && ends_well (d ∷ s)

abbrev starts_well : Text → Bool
starts_well [] = false
starts_well (c ∷ s) = is_alnum c && ends_well s

-- `/^[a-z0-9][a-z0-9-]{1,61}[a-z0-9]$/`
unfoldable pub is_format : Text → Bool
is_format s = leb 3 (length s) && leb (length s) 63 && starts_well s

-- RESERVED
unfoldable pub reserved : List Text
reserved =
    lit "swkoo"
    ∷ lit "swkoo-kr"
    ∷ lit "swkoo-deploy"
    ∷ lit "swkoo-portfolio"
    ∷ lit "www"
    ∷ lit "mail"
    ∷ lit "api"
    ∷ lit "app"
    ∷ lit "admin"
    ∷ lit "auth"
    ∷ lit "login"
    ∷ lit "logout"
    ∷ lit "signup"
    ∷ lit "signin"
    ∷ lit "oauth"
    ∷ lit "sso"
    ∷ lit "register"
    ∷ lit "account"
    ∷ lit "settings"
    ∷ lit "dashboard"
    ∷ lit "console"
    ∷ lit "control"
    ∷ lit "panel"
    ∷ lit "home"
    ∷ lit "docs"
    ∷ lit "doc"
    ∷ lit "help"
    ∷ lit "support"
    ∷ lit "faq"
    ∷ lit "status"
    ∷ lit "blog"
    ∷ lit "news"
    ∷ lit "argocd"
    ∷ lit "argo"
    ∷ lit "grafana"
    ∷ lit "prometheus"
    ∷ lit "kibana"
    ∷ lit "alertmanager"
    ∷ lit "kube"
    ∷ lit "k8s"
    ∷ lit "kubernetes"
    ∷ lit "traefik"
    ∷ lit "nginx"
    ∷ lit "monitor"
    ∷ lit "monitoring"
    ∷ lit "metrics"
    ∷ lit "logs"
    ∷ lit "alerts"
    ∷ lit "observability"
    ∷ lit "observatory"
    ∷ lit "ci"
    ∷ lit "build"
    ∷ lit "runner"
    ∷ lit "image"
    ∷ lit "scan"
    ∷ lit "security"
    ∷ lit "staging"
    ∷ lit "prod"
    ∷ lit "production"
    ∷ lit "dev"
    ∷ lit "development"
    ∷ lit "demo"
    ∷ lit "test"
    ∷ lit "beta"
    ∷ lit "alpha"
    ∷ lit "root"
    ∷ lit "system"
    ∷ lit "sys"
    ∷ lit "private"
    ∷ lit "public"
    ∷ lit "internal"
    ∷ lit "new"
    ∷ lit "privacy"
    ∷ lit "terms"
    ∷ lit "legal"
    ∷ lit "tos"
    ∷ []

-- `validateSubdomainFormat`
unfoldable pub validate_subdomain_format : Text → Result SubdomainReason (Unit {0})
unfolding is_format reserved
validate_subdomain_format slug =
    if not (is_format slug)
    then err format_reason
    else if any (λ r. r == slug) reserved
    then err reserved_reason
    else ok tt
