-- ===== src/Access/Subdomain/Label.antt =====
-- An accepted subdomain can stand as a label in a host name.
use swkoo_kr.Prelude.{
  ◌≤◌, ◌≡◌, refl, true, false, [], ◌∷◌, arith, ◌==◌, any, all, length, inl, inr, Bool-cases, ok,
  nat_eq,
}
use swkoo_kr.Prelude.Texts.{Text, text_eq, text_beq, starts_with, ends_with}
use swkoo_kr.Domain.Validation.{label_ok, is_label_unit}
use swkoo_kr.Access.Subdomain.{validate_subdomain_format, is_format, reserved, ends_well}

well-units : (s : Text) → ends_well s ≡ true → all is_label_unit s ≡ true
well-units [] h = refl
well-units (c ∷ []) h = ground arith
well-units (c ∷ d ∷ s) h = ground (arith, well-units (d ∷ s))

well-no_dash : (s : Text) → ends_well s ≡ true → ends_with s (b'-' ∷ []) ≡ false
unfolding ends_with text_beq
well-no_dash [] h = refl
well-no_dash (c ∷ []) h = ground arith
well-no_dash (c ∷ d ∷ s) h = ground (arith, well-no_dash (d ∷ s))

format-label : (s : Text) → is_format s ≡ true → label_ok s ≡ true
unfolding is_format label_ok starts_with ends_with text_beq
format-label [] h = absurd (cc)
format-label (c ∷ []) h = absurd (ground arith)
format-label (c ∷ d ∷ s) h = ground (arith, well-units (d ∷ s), well-no_dash (d ∷ s))

format-length : (s : Text) → is_format s ≡ true → (3 ≤ length s) × (length s ≤ 63)
unfolding is_format
format-length s h = (ground arith, ground arith)

-- A subdomain that is accepted has 3 to 63 units, is a valid label of a host name, and is not a
-- reserved name.
pub validate_subdomain_format-label_ok :
    (slug : Text)
    → validate_subdomain_format slug ≡ ok tt
    → (3 ≤ length slug)
      × (length slug ≤ 63)
      × (label_ok slug ≡ true)
      × (any (λ r. r == slug) reserved ≡ false)
unfolding validate_subdomain_format
validate_subdomain_format-label_ok slug e = elim (Bool-cases (is_format slug)) [
  | inr bad ↦ absurd (cc (rw bad at e))
  | inl good ↦ elim (Bool-cases (any (λ r. r == slug) reserved)) [
    | inl taken ↦ absurd (cc (rw (good, taken) at e))
    | inr free ↦
        let (short, long) = format-length slug good in (short, long, format-label slug good, free)
  ]
]
