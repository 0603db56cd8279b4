-- ===== src/Prelude/Texts/Units.antt =====
-- Texts all of whose units pass a test, under the string methods.
use swkoo_kr.Prelude.Base.{
  ℕ, ◌≡◌, refl, ap, Bool, true, false, ◌&&◌, ◌||◌, List, [], ◌∷◌, ◌++◌, arith, ◌==◌, nat_eq, inl,
  inr, Bool-cases, nat_beq_iff,
}
use swkoo_kr.Prelude.Lists.{all, length}
use swkoo_kr.Prelude.Texts.{
  Text, to_lower, lower_unit, is_space, trim, trim_start, trim_end, push_end, split, cons_head,
  includes,
}

module _ {ℓ} {A : Type ℓ} where
  pub all-weaken :
      (p q : A → Bool) (xs : List A)
      → ((x : A) → p x ≡ true → q x ≡ true)
      → all p xs ≡ true
      → all q xs ≡ true
  all-weaken p q [] f h = refl
  all-weaken p q (x ∷ xs) f h = ground (arith, f x, all-weaken p q xs f)

  pub all-append : (p : A → Bool) (xs ys : List A) → all p (xs ++ ys) ≡ (all p xs && all p ys)
  all-append p [] ys = refl
  all-append p (x ∷ xs) ys = ground (arith, all-append p xs ys)

cons_head-all :
    (p : ℕ → Bool) (c : ℕ) (ws : List Text)
    → all (all p) (cons_head c ws) ≡ true
    → (p c ≡ true) × (all (all p) ws ≡ true)
cons_head-all p c [] h = ground arith
cons_head-all p c (w ∷ ws) h = ground arith

-- If the pieces pass, the text passes but for the separators.
pub split-all :
    (p : ℕ → Bool) (d : ℕ) (s : Text)
    → all (all p) (split d s) ≡ true
    → all (λ c. p c || c == d) s ≡ true
unfolding split
split-all p d [] h = refl
split-all p d (c ∷ s) h = elim (Bool-cases (c == d)) [
  | inl e ↦ ground (arith, e, split-all p d s)
  | inr e ↦
      let (first, rest) = cons_head-all p c (split d s) (rw e at h) in
      ground (arith, first, split-all p d s rest)
]

all-head : (p : ℕ → Bool) (c : ℕ) (t : Text) → all p (c ∷ t) ≡ true → p c ≡ true
all-head p c t h = ground arith

push_end-keep : (c : ℕ) (t : Text) → is_space c ≡ false → push_end c t ≡ c ∷ t
push_end-keep c [] h = rw h refl
push_end-keep c (d ∷ t) h = refl

-- A unit that no unit of the text is does not begin anything in it.
pub includes-none :
    (p : ℕ → Bool) (d : ℕ) (s t : Text) → p d ≡ false → all p t ≡ true → includes t (d ∷ s) ≡ false
unfolding includes
includes-none p d s [] n h = refl
includes-none p d s (c ∷ t) n h = elim (Bool-cases (c == d)) [
  | inl e ↦ absurd (cc (n, ap p ((nat_beq_iff c d).0 e), all-head p c t h))
  | inr e ↦ ground (arith, e, includes-none p d s t n)
]

module _ (p : ℕ → Bool) (spaceless : (c : ℕ) → p c ≡ true → is_space c ≡ false) where
  trim_end-all : (t : Text) → all p t ≡ true → trim_end t ≡ t
  unfolding trim_end
  trim_end-all [] h = refl
  trim_end-all (c ∷ t) h =
      rw (trim_end-all t (ground arith)) (push_end-keep c t (spaceless c (ground arith)))

  trim_start-all : (t : Text) → all p t ≡ true → trim_start t ≡ t
  unfolding trim_start
  trim_start-all [] h = refl
  trim_start-all (c ∷ t) h = ground (arith, spaceless c)

  -- There is nothing to trim without white space.
  pub trim-all : (t : Text) → all p t ≡ true → trim t ≡ t
  unfolding trim
  trim-all t h = rw (trim_start-all t h) (trim_end-all t h)

module _ (p : ℕ → Bool) where
  -- Where each unit that passes is its own lower case, so is a text.
  pub to_lower-all :
      (t : Text) → ((c : ℕ) → p c ≡ true → lower_unit c ≡ c ∷ []) → all p t ≡ true → to_lower t ≡ t
  unfolding to_lower
  to_lower-all [] f h = refl
  to_lower-all (c ∷ t) f h =
      rw (f c (ground arith)) (ap (λ s. c ∷ s) (to_lower-all t f (ground arith)))

  -- Where the lower case passes and U+0130 gives no passing text, no unit is added.
  pub length-to_lower :
      (t : Text) → p 0x307 ≡ false → all p (to_lower t) ≡ true → length (to_lower t) ≡ length t
  unfolding to_lower
  length-to_lower [] n h = refl
  length-to_lower (c ∷ t) n h = ground (arith, length-to_lower t n)
