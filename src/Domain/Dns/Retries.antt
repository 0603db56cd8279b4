-- ===== src/Domain/Dns/Retries.antt =====
-- How often a look-up is tried, how long it waits, and which answer it gives.
use swkoo_kr.Prelude.{ℕ, ◌≤◌, ◌≡◌, ◌⊎◌, Bool, true, false, arith, Result, ok, err, Result-cases}
use swkoo_kr.Domain.Dns.{DnsError, is_permanent, Lookup, with_retry}

-- A failure after which the look-up is tried again.
abbrev pub is_transient : {A : Type 0} → Result DnsError A → Bool
is_transient (ok a) = false
is_transient (err e) = elim (is_permanent e.code) [ true ↦ false | false ↦ true ]

pub record IsRetried {A : Type 0} (fn : ℕ → Result DnsError A) (l : Lookup A) : Type 0 where
  pub at_least : 1 ≤ l.calls
  pub at_most : l.calls ≤ 3
  pub patience : l.waited ≤ 3000
  pub last : l.answer ≡ fn l.calls
  pub ended : (is_transient (fn l.calls) ≡ false) ⊎ (l.calls ≡ 3)
  pub second : 2 ≤ l.calls → is_transient (fn 1) ≡ true
  pub third : 3 ≤ l.calls → is_transient (fn 2) ≡ true

-- A look-up makes one to three attempts and waits three seconds at most; its answer is that of the
-- last attempt, which is the first that is no transient failure, or the third.
pub with_retry-IsRetried : {A : Type 0} (fn : ℕ → Result DnsError A) → IsRetried fn (with_retry fn)
unfolding with_retry
with_retry-IsRetried fn =
    ground (arith, Result-cases (fn 1), Result-cases (fn 2), Result-cases (fn 3))
