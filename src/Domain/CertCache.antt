-- ===== src/Domain/CertCache.antt =====
-- domain/cert-status-cache.ts: certificate status, cached for twenty seconds.
pub mod Freshness
use swkoo_kr.Prelude.{
  ℕ, ◌+◌, Bool, false, Option, none, some, List, ◌∷◌, ◌++◌, ltb, if◌then◌else◌, ◌==◌, nat_eq,
  or_else, coalesce, find,
}
use swkoo_kr.Prelude.Texts.{Text, lit, text_eq}
use swkoo_kr.Prelude.Maps.{lookup, insert, remove}

abbrev pub ttl_ms : ℕ
ttl_ms = 20000

pub record CertStatus : Type 0 where
  pub ready : Bool
  pub reason : Option Text
  pub message : Option Text
  pub not_after : Option Text
  pub observed_at : ℕ
  pub fetch_error : Option Text

-- What the Kubernetes API answers: a certificate with its conditions, none, or a failure.
pub record Condition : Type 0 where
  pub kind : Text
  pub status : Text
  pub reason : Option Text
  pub message : Option Text

pub record KubeFailure : Type 0 where
  pub code : Option ℕ
  pub status_code : Option ℕ
  pub body_code : Option ℕ
  pub message : Option Text

pub data KubeRead : Type 0 where
  certificate : List Condition → Option Text → KubeRead
  missing : KubeRead
  failed : KubeFailure → KubeRead

abbrev is_ready_condition : Condition → Bool
is_ready_condition c = c.kind == lit "Ready"

-- `ready?.status === 'True'` and the optional fields of the same condition
abbrev from_condition : ℕ → Option Text → Option Condition → CertStatus
from_condition observed_at not_after none = record {
  ready = false;
  reason = none;
  message = none;
  not_after = not_after;
  observed_at = observed_at;
  fetch_error = none;
}
from_condition observed_at not_after (some c) = record {
  ready = c.status == lit "True";
  reason = c.reason;
  message = c.message;
  not_after = not_after;
  observed_at = observed_at;
  fetch_error = none;
}

abbrev pub not_ready : ℕ → Text → CertStatus
not_ready observed_at why = record {
  ready = false;
  reason = none;
  message = none;
  not_after = none;
  observed_at = observed_at;
  fetch_error = some why;
}

-- `code === 404`
abbrev is_404 : Option ℕ → Bool
is_404 none = false
is_404 (some code) = code == 404

unfoldable pub read : ℕ → KubeRead → CertStatus
read now (certificate conditions not_after) =
    from_condition now not_after (find is_ready_condition conditions)
read now missing = not_ready now (lit "cert not found")
read now (failed e) = not_ready now (
    if is_404 (coalesce e.code (coalesce e.status_code e.body_code))
    then lit "cert not provisioned yet"
    else or_else e.message (lit "kube read failed"))

abbrev pub Cache : Type 0
Cache = List (Text × CertStatus)

-- The key `${namespace}/${name}`.
abbrev pub cache_key : Text → Text → Text
cache_key namespace name = namespace ++ (b'/' ∷ name)

-- `now - observedAt < TTL_MS`, which an observation from the future satisfies too.
abbrev pub is_fresh : ℕ → CertStatus → Bool
is_fresh now c = ltb now (c.observed_at + ttl_ms)

abbrev fetch : (Text → Text → KubeRead) → ℕ → Text → Text → Cache → Cache × CertStatus
fetch kube now namespace name cache =
    let fresh = read now (kube namespace name) in
    (insert (cache_key namespace name) fresh cache, fresh)

abbrev serve :
    (Text → Text → KubeRead) → ℕ → Text → Text → Cache → Option CertStatus → Cache × CertStatus
serve kube now namespace name cache none = fetch kube now namespace name cache
serve kube now namespace name cache (some cached) =
    if is_fresh now cached then (cache, cached) else fetch kube now namespace name cache

unfoldable pub get : (Text → Text → KubeRead) → ℕ → Text → Text → Cache → Cache × CertStatus
get kube now namespace name cache =
    serve kube now namespace name cache (lookup (cache_key namespace name) cache)

unfoldable pub invalidate : Text → Text → Cache → Cache
invalidate namespace name cache = remove (cache_key namespace name) cache
