-- ===== src/Domain/Validation/Normal.antt =====
-- Validating what the validation returned.
use swkoo_kr.Prelude.{
  ℕ, ◌≤◌, ◌≡◌, refl, ap, ◌∙◌, sym, Bool, true, false, ◌||◌, none, List, [], ◌∷◌, arith, ◌==◌,
  nat_eq, inl, inr, Bool-cases, Option-cases, ok, all, length, subst,
}
use swkoo_kr.Prelude.Texts.{Text, text_eq, trim, to_lower, lower_unit, split, is_space, is_digit}
use swkoo_kr.Prelude.Texts.Units.{split-all, trim-all, to_lower-all, includes-none}
use swkoo_kr.Domain.Validation.{
  Parsed, Validated, validate_custom_domain, check_shape, check_labels, label_ok, is_ip,
  four_octets,
}
use swkoo_kr.Domain.Validation.Accepts.{is_host_unit, validate-IsAccepted, validate-IsHostName}

abbrev is_ip_unit : ℕ → Bool
is_ip_unit c = is_digit c || c == b'.'

octets-digits : (ws : List Text) → four_octets ws ≡ true → all (all is_digit) ws ≡ true
octets-digits (a ∷ b ∷ c ∷ d ∷ []) h = ground arith
octets-digits [] h = absurd (cc)
octets-digits (a ∷ []) h = absurd (cc)
octets-digits (a ∷ b ∷ []) h = absurd (cc)
octets-digits (a ∷ b ∷ c ∷ []) h = absurd (cc)
octets-digits (a ∷ b ∷ c ∷ d ∷ e ∷ f) h = absurd (cc)

is_ip-units : (t : Text) → is_ip t ≡ true → all is_ip_unit t ≡ true
unfolding is_ip
is_ip-units t h = split-all is_digit b'.' t (octets-digits (split b'.' t) h)

-- Lower case makes no digits and no dots.
to_lower-digits : (t : Text) → all is_ip_unit (to_lower t) ≡ true → to_lower t ≡ t
unfolding to_lower
to_lower-digits [] h = refl
to_lower-digits (c ∷ t) h = ground (arith, to_lower-digits t)

is_ip-to_lower : (t : Text) → is_ip t ≡ false → is_ip (to_lower t) ≡ false
is_ip-to_lower t h = elim (Bool-cases (is_ip (to_lower t))) [
  | inr e ↦ e
  | inl e ↦ absurd (cc (h, e, ap is_ip (to_lower-digits t (is_ip-units (to_lower t) e))))
]

host-lower : (c : ℕ) → is_host_unit c ≡ true → lower_unit c ≡ c ∷ []
unfolding lower_unit
host-lower c h = ground arith

host-space : (c : ℕ) → is_host_unit c ≡ true → is_space c ≡ false
host-space c h = ground arith

shape-ok :
    (t : Text)
    → all is_host_unit t ≡ true
    → (length t == 0) ≡ false
    → is_ip t ≡ false
    → length t ≤ 253
    → check_shape t ≡ none
unfolding check_shape
shape-ok t units filled ip fits =
    rw
      (
        filled,
        includes-none is_host_unit b':' (b'/' ∷ b'/' ∷ []) t refl units,
        includes-none is_host_unit b'/' [] t refl units,
        includes-none is_host_unit b'*' [] t refl units,
        ip,
      )
      (ground arith)

filled_of-labels : (t : Text) → all label_ok (split b'.' t) ≡ true → (length t == 0) ≡ false
unfolding label_ok split
filled_of-labels [] h = absurd (cc)
filled_of-labels (c ∷ t) h = ground arith

labels_of-ok :
    (parse : Text → Parsed) (input : Text) (v : Validated)
    → validate_custom_domain parse input ≡ ok v
    → check_labels parse (to_lower (trim input)) ≡ ok v
unfolding validate_custom_domain
labels_of-ok parse input v e = elim (Option-cases (check_shape (trim input))) [
  | inr (reason, bad) ↦ absurd (cc (rw bad at e))
  | inl good ↦ rw good at e
]

revalidate :
    (parse : Text → Parsed) (t : Text) (v : Validated)
    → trim t ≡ t
    → to_lower t ≡ t
    → check_shape t ≡ none
    → check_labels parse t ≡ ok v
    → validate_custom_domain parse t ≡ ok v
unfolding validate_custom_domain
revalidate parse t v trimmed lowered shaped labels = rw (trimmed, shaped, lowered) labels

-- The name that an accepted input is normalised to is accepted again, as itself and below the same
-- registrable domain.
pub validate-normalized :
    (parse : Text → Parsed) (input : Text) (v : Validated)
    → validate_custom_domain parse input ≡ ok v
    → validate_custom_domain parse v.normalized ≡ ok v
validate-normalized parse input v e =
    let a = validate-IsAccepted parse input v e in
    let host = validate-IsHostName parse input v e in
    let ip : is_ip v.normalized ≡ false =
      ap is_ip a.lowered ∙ is_ip-to_lower (trim input) a.shaped.no_ip in
    revalidate parse v.normalized v (trim-all is_host_unit host-space v.normalized host.units)
      (to_lower-all is_host_unit v.normalized host-lower host.units)
      (shape-ok v.normalized host.units (filled_of-labels v.normalized a.labels) ip host.fits)
      (subst (λ x. check_labels parse x ≡ ok v) (sym a.lowered) (labels_of-ok parse input v e))
