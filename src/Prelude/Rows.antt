-- ===== src/Prelude/Rows.antt =====
-- Laws of the loops over rows: what a selection, an update and a deletion keep.
use mathlib.Core.List.{Mem, mem-cons_self, mem-cons_of_mem}
use mathlib.Core.Option
use mathlib.Core.Path.{subst}
use swkoo_kr.Prelude.Base.{
  ◌≡◌, refl, Bool, true, false, inl, inr, none, some, List, [], ◌∷◌, ◌++◌, arith, if◌then◌else◌,
  Bool-cases, some-eq,
}
use swkoo_kr.Prelude.Lists.{any, find, keep, update_where, All, AllPairs}

module _ {ℓ κ} {A : Type ℓ} (P : A → Type κ) where
  pub All-append_one : (xs : List A) (y : A) → All P xs → P y → All P (xs ++ y ∷ [])
  All-append_one [] y h k = (k, tt)
  All-append_one (x ∷ xs) y h k = (h.0, All-append_one xs y h.1 k)

  pub All-keep : (p : A → Bool) (xs : List A) → All P xs → All P (keep p xs)
  All-keep p [] h = tt
  All-keep p (x ∷ xs) h = elim (Bool-cases (p x)) [
    | inl e ↦ rw e (h.0, All-keep p xs h.1)
    | inr e ↦ rw e (All-keep p xs h.1)
  ]

  -- What holds of a list holds of what is found in it.
  pub All-find : (p : A → Bool) (xs : List A) (a : A) → All P xs → find p xs ≡ some a → P a
  All-find p [] a h e = absurd (cc)
  All-find p (x ∷ xs) a h e = elim (Bool-cases (p x)) [
    | inl t ↦ let same : x ≡ a = ground arith in subst P same h.0
    | inr f ↦ All-find p xs a h.1 (rw f at e)
  ]

module _ {ℓ κ μ} {A : Type ℓ} (P : A → Type κ) (Q : A → Type μ) where
  pub All-map : (xs : List A) → ((x : A) → P x → Q x) → All P xs → All Q xs
  All-map [] f h = tt
  All-map (x ∷ xs) f h = (f x h.0, All-map xs f h.1)

module _ {ℓ κ μ} {A : Type ℓ} (P : A → Type κ) (Q : A → Type μ) where
  pub All-both : (xs : List A) → All P xs → All Q xs → All (λ x. P x × Q x) xs
  All-both [] h k = tt
  All-both (x ∷ xs) h k = ((h.0, k.0), All-both xs h.1 k.1)

module _ {ℓ κ} {A : Type ℓ} (R : A → A → Type κ) where
  pub AllPairs-append_one :
      (xs : List A) (y : A) → AllPairs R xs → All (λ x. R x y) xs → AllPairs R (xs ++ y ∷ [])
  AllPairs-append_one [] y h k = (tt, tt)
  AllPairs-append_one (x ∷ xs) y h k =
      (All-append_one (R x) xs y h.0 k.0, AllPairs-append_one xs y h.1 k.1)

  pub AllPairs-keep : (p : A → Bool) (xs : List A) → AllPairs R xs → AllPairs R (keep p xs)
  AllPairs-keep p [] h = tt
  AllPairs-keep p (x ∷ xs) h = elim (Bool-cases (p x)) [
    | inl e ↦ rw e (All-keep (R x) p xs h.0, AllPairs-keep p xs h.1)
    | inr e ↦ rw e (AllPairs-keep p xs h.1)
  ]

-- One entry under `update_where`.
abbrev pub step {ℓ} : {A : Type ℓ} → (A → Bool) → (A → A) → A → A
step p f x = if p x then f x else x

module _ {ℓ} {A : Type ℓ} (p : A → Bool) (f : A → A) where
  pub All-update_where {κ μ} :
      (P : A → Type κ) (Q : A → Type μ) (xs : List A)
      → ((x : A) → P x → Q (step p f x))
      → All P xs
      → All Q (update_where p f xs)
  All-update_where P Q [] keeps h = tt
  All-update_where P Q (x ∷ xs) keeps h = (keeps x h.0, All-update_where P Q xs keeps h.1)

  pub AllPairs-update_where {κ} :
      (R : A → A → Type κ) (xs : List A)
      → ((x y : A) → R x y → R (step p f x) (step p f y))
      → AllPairs R xs
      → AllPairs R (update_where p f xs)
  AllPairs-update_where R [] keeps h = tt
  AllPairs-update_where R (x ∷ xs) keeps h = (
    All-update_where (R x) (R (step p f x)) xs (λ y. keeps x y) h.0,
    AllPairs-update_where R xs keeps h.1,
  )

  -- A test that the update does not change finds the same entry, updated.
  pub find-update_where :
      (q : A → Bool) (xs : List A)
      → ((x : A) → q (step p f x) ≡ q x)
      → find q (update_where p f xs) ≡ Option.map (step p f) (find q xs)
  find-update_where q [] same = refl
  find-update_where q (x ∷ xs) same = elim (Bool-cases (q x)) [
    | inl t ↦ rw (same x, t) refl
    | inr u ↦ rw (same x, u) (find-update_where q xs same)
  ]

module _ {ℓ} {A : Type ℓ} where
  pub any-false : (p : A → Bool) (xs : List A) → any p xs ≡ false → All (λ x. p x ≡ false) xs
  any-false p [] h = tt
  any-false p (x ∷ xs) h = (ground arith, any-false p xs (ground arith))

  pub find-none : (p : A → Bool) (xs : List A) → find p xs ≡ none → All (λ x. p x ≡ false) xs
  find-none p [] h = tt
  find-none p (x ∷ xs) h = elim (Bool-cases (p x)) [
    | inl t ↦ absurd (cc (rw t at h))
    | inr u ↦ (u, find-none p xs (rw u at h))
  ]

  pub find_of_All : (p : A → Bool) (xs : List A) → All (λ x. p x ≡ false) xs → find p xs ≡ none
  find_of_All p [] h = refl
  find_of_All p (x ∷ xs) h = rw h.0 (find_of_All p xs h.1)

  -- A deletion of the rows that the test does not find leaves what it finds.
  pub find-keep :
      (q p : A → Bool) (xs : List A)
      → ((x : A) → q x ≡ true → p x ≡ true)
      → find q (keep p xs) ≡ find q xs
  find-keep q p [] h = refl
  find-keep q p (x ∷ xs) h = ground (arith, h x, find-keep q p xs h)

  -- Where the rows that the test finds are deleted, nothing is found.
  pub find-keep-none :
      (q p : A → Bool) (xs : List A)
      → ((x : A) → p x ≡ true → q x ≡ false)
      → find q (keep p xs) ≡ none
  find-keep-none q p [] h = refl
  find-keep-none q p (x ∷ xs) h = ground (arith, h x, find-keep-none q p xs h)

module _ {ℓ} {A : Type ℓ} where
  -- What `some` finds is a member.
  pub any-mem : (p : A → Bool) (xs : List A) → any p xs ≡ true → (x : A) × Mem x xs × (p x ≡ true)
  any-mem p [] h = absurd (cc)
  any-mem p (x ∷ xs) h = elim (Bool-cases (p x)) [
    | inl e ↦ (x, mem-cons_self, e)
    | inr e ↦ let (y, m, t) = any-mem p xs (ground arith) in (y, mem-cons_of_mem x m, t)
  ]

  -- What `find` finds is a member.
  pub find-mem : (p : A → Bool) (xs : List A) (x : A) → find p xs ≡ some x → Mem x xs × (p x ≡ true)
  find-mem p [] x e = absurd (cc)
  find-mem p (y ∷ xs) x e = elim (Bool-cases (p y)) [
    | inl t ↦
        let same : y ≡ x = some-eq (rw t at e) in
        subst (λ z. Mem z (y ∷ xs) × (p z ≡ true)) same (mem-cons_self, t)
    | inr f ↦ let (m, t) = find-mem p xs x (rw f at e) in (mem-cons_of_mem y m, t)
  ]

  -- As `find-keep-none`, of the entries of the list.
  pub find-keep-none_at :
      (q p : A → Bool) (xs : List A)
      → All (λ x. p x ≡ true → q x ≡ false) xs
      → find q (keep p xs) ≡ none
  find-keep-none_at q p [] h = refl
  find-keep-none_at q p (x ∷ xs) h = ground (arith, h.0, find-keep-none_at q p xs h.1)

  -- A deletion leaves what the test finds, where the test's rows stay.
  pub find-keep_at :
      (q p : A → Bool) (xs : List A)
      → All (λ x. q x ≡ true → p x ≡ true) xs
      → find q (keep p xs) ≡ find q xs
  find-keep_at q p [] h = refl
  find-keep_at q p (x ∷ xs) h = ground (arith, h.0, find-keep_at q p xs h.1)
