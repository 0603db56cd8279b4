-- ===== src/Domain/Dns.antt =====
-- domain/dns-resolver.ts: look-ups with retries. What the resolver answers on each attempt is a
-- parameter; waiting is counted in milliseconds.
pub mod Retries
use swkoo_kr.Prelude.{
  ℕ, zero, suc, ◌+◌, ◌*◌, ◌-◌, Bool, true, false, List, [], map, ltb, if◌then◌else◌, Result, ok,
  err,
}
use swkoo_kr.Prelude.Texts.{Text, join}

-- `err.code` as far as the program looks at it, and `err.message`.
pub data DnsCode : Type 0 where
  enotfound enodata other : DnsCode

pub record DnsError : Type 0 where
  pub code : DnsCode
  pub message : Text

-- NXDOMAIN / NODATA are deterministic.
abbrev pub is_permanent : DnsCode → Bool
is_permanent other = false
is_permanent _ = true

abbrev pub retry_attempts : ℕ
retry_attempts = 3

abbrev pub retry_backoff_ms : ℕ
retry_backoff_ms = 1000

-- What a look-up gives, with the attempts made and the time waited between them.
pub record Lookup (A : Type 0) : Type 0 where
  pub answer : Result DnsError A
  pub calls : ℕ
  pub waited : ℕ

module _ {A : Type 0} (fn : ℕ → Result DnsError A) where
  -- The `for` loop with `left` rounds to go; `attempt` is its variable.
  retry_from : (left attempt waited : ℕ) → DnsError → Lookup A
  retry_from zero attempt waited last = record {
    answer = err last;
    calls = attempt - 1;
    waited = waited;
  }
  retry_from (suc left) attempt waited last = elim (fn attempt) [
    | ok a ↦ record { answer = ok a; calls = attempt; waited = waited }
    | err e ↦
        if is_permanent e.code
        then record { answer = err e; calls = attempt; waited = waited }
        else retry_from left (attempt + 1)
            (if ltb attempt retry_attempts then waited + retry_backoff_ms * attempt else waited) e
  ]

  -- `lastErr` starts undefined; with three rounds to go it is never thrown so.
  abbrev undefined : DnsError
  undefined = record { code = other; message = [] }

  unfoldable pub with_retry : Lookup A
  unfolding retry_from
  with_retry = retry_from retry_attempts 1 0 undefined

abbrev joined : Result DnsError (List (List Text)) → Result DnsError (List Text)
joined (ok records) = ok (map (join []) records)
joined (err e) = err e

-- The network: what each attempt at a look-up of a name answers.
pub record Network : Type 0 where
  pub txt : Text → ℕ → Result DnsError (List (List Text))
  pub cname : Text → ℕ → Result DnsError (List Text)
  pub a : Text → ℕ → Result DnsError (List Text)

-- The chunks of one TXT record are joined.
unfoldable pub resolve_txt : Network → Text → Result DnsError (List Text)
unfolding with_retry
resolve_txt net name = (with_retry (λ n. joined (net.txt name n))).answer

unfoldable pub resolve_cname : Network → Text → Result DnsError (List Text)
unfolding with_retry
resolve_cname net name = (with_retry (net.cname name)).answer

unfoldable pub resolve_a : Network → Text → Result DnsError (List Text)
unfolding with_retry
resolve_a net name = (with_retry (net.a name)).answer
