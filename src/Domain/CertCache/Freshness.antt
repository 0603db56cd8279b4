-- ===== src/Domain/CertCache/Freshness.antt =====
-- The certificate cache answers from a recent observation, and forgets when it is told to.
use swkoo_kr.Prelude.{ℕ, ◌+◌, ◌<◌, ◌≡◌, refl, true, some, arith, inl, inr, Option-cases, Bool-cases}
use swkoo_kr.Prelude.Texts.{Text, text_beq_refl}
use swkoo_kr.Prelude.Maps.{lookup, lookup-insert, lookup-remove}
use swkoo_kr.Domain.CertCache.{
  Cache, CertStatus, KubeRead, get, invalidate, read, cache_key, is_fresh, ttl_ms,
}

read-observed : (now : ℕ) (r : KubeRead) → (read now r).observed_at ≡ now
unfolding read
read-observed now (KubeRead.certificate conditions not_after) = ground arith
read-observed now KubeRead.missing = refl
read-observed now (KubeRead.failed e) = refl

-- What is answered is then in the cache.
get-stored :
    (kube : Text → Text → KubeRead) (now : ℕ) (namespace name : Text) (cache : Cache)
    → lookup (cache_key namespace name) (get kube now namespace name cache).0
      ≡ some (get kube now namespace name cache).1
unfolding get
get-stored kube now namespace name cache =
    elim (Option-cases (lookup (cache_key namespace name) cache)) [
      | inl e ↦ rw (e, lookup-insert, text_beq_refl)
      | inr (c, e) ↦ rw e (elim (Bool-cases (is_fresh now c)) [
        | inl fresh ↦ rw fresh e
        | inr stale ↦ rw (stale, lookup-insert, text_beq_refl)
      ])
    ]

-- No answer is older than twenty seconds.
pub get-is_fresh :
    (kube : Text → Text → KubeRead) (now : ℕ) (namespace name : Text) (cache : Cache)
    → is_fresh now (get kube now namespace name cache).1 ≡ true
unfolding get
get-is_fresh kube now namespace name cache =
    elim (Option-cases (lookup (cache_key namespace name) cache)) [
      | inl e ↦ rw e (ground (arith, read-observed now (kube namespace name)))
      | inr (c, e) ↦ rw e (elim (Bool-cases (is_fresh now c)) [
        | inl fresh ↦ rw fresh fresh
        | inr stale ↦ rw stale (ground (arith, read-observed now (kube namespace name)))
      ])
    ]

get-cached :
    (kube : Text → Text → KubeRead) (now : ℕ) (namespace name : Text) (cache : Cache)
    (c : CertStatus)
    → lookup (cache_key namespace name) cache ≡ some c
    → is_fresh now c ≡ true
    → get kube now namespace name cache ≡ (cache, c)
unfolding get
get-cached kube now namespace name cache c e fresh = rw (e, fresh)

-- Until the observation is twenty seconds old the same answer is given again, whatever the cluster
-- would say, a failed read included, and the cache stays as it is.
pub get-again :
    (kube kube' : Text → Text → KubeRead) (now now' : ℕ) (namespace name : Text) (cache : Cache)
    → now' < (get kube now namespace name cache).1.observed_at + ttl_ms
    → get kube' now' namespace name (get kube now namespace name cache).0
      ≡ get kube now namespace name cache
get-again kube kube' now now' namespace name cache h =
    get-cached kube' now' namespace name _ _ (get-stored kube now namespace name cache)
      (ground arith)

-- After an invalidation the cluster is asked again.
pub get-invalidate :
    (kube : Text → Text → KubeRead) (now : ℕ) (namespace name : Text) (cache : Cache)
    → (get kube now namespace name (invalidate namespace name cache)).1
      ≡ read now (kube namespace name)
unfolding get invalidate
get-invalidate kube now namespace name cache = rw (lookup-remove, text_beq_refl)
