-- ===== src/Deploy/Handler/Laws.antt =====
-- What a handler that returns has passed.
use swkoo_kr.Prelude.{◌≡◌, refl, inl, inr, ◌⊎◌, Bool, true, false, if◌then◌else◌, Result, ok, err}
use swkoo_kr.Deploy.Handler.{Platform, Handler, continue}

pub pure-eq {ℓ κ} :
    {E : Type ℓ} {A : Type κ} {s s' : Platform} {a a' : A}
    → (let r : Platform × Result E A = (s, ok a) in r) ≡ (s', ok a')
    → (s ≡ s') × (a ≡ a')
pure-eq e = (cc, cc)

module _ {ℓ κ μ} {E : Type ℓ} {A : Type κ} {B : Type μ} where
  -- A composition that returns has passed its first part.
  pub continue-ok :
      (f : A → Handler E B) (p : Platform × Result E A) (s' : Platform) (b : B)
      → continue f p ≡ (s', ok b)
      → (s : Platform) × (a : A) × (p ≡ (s, ok a)) × (f a s ≡ (s', ok b))
  continue-ok f (s, ok a) s' b e = (s, a, refl, e)
  continue-ok f (s, err t) s' b e = absurd (cc)

pub if-ok {ℓ κ} :
    {E : Type ℓ} {A : Type κ} (b : Bool) (m n : Handler E A) (s s' : Platform) (a : A)
    → (if b then m else n) s ≡ (s', ok a)
    → ((b ≡ true) × (m s ≡ (s', ok a))) ⊎ ((b ≡ false) × (n s ≡ (s', ok a)))
if-ok true m n s s' a e = inl (refl, e)
if-ok false m n s s' a e = inr (refl, e)
