-- ===== src/Domain/Validation/Accepts.antt =====
-- What an accepted domain is: a lower-case host name of a registrable domain of someone else.
use swkoo_kr.Prelude.{
  ℕ, ◌≤◌, ◌≡◌, ◌≢◌, refl, sym, Bool, true, false, not, ◌&&◌, ◌||◌, Option, none, some, [], ◌∷◌,
  arith, ltb, ◌==◌, nat_eq, inl, inr, Bool-cases, Option-cases, ok, all, length, subst,
}
use swkoo_kr.Prelude.Texts.{Text, text_eq, text_beq_iff, trim, to_lower, split, includes}
use swkoo_kr.Prelude.Texts.Units.{all-weaken, split-all, length-to_lower}
use swkoo_kr.Domain.Validation.{
  Parsed, Validated, validate_custom_domain, check_shape, check_labels, check_suffix, check_domain,
  check_registrable, label_ok, is_label_unit, is_reserved, is_ip, swkoo_kr_domain,
}

-- The tests that the trimmed input passes.
pub record IsShaped (t : Text) : Type 0 where
  pub filled : (length t == 0) ≡ false
  pub no_protocol : includes t (b':' ∷ b'/' ∷ b'/' ∷ []) ≡ false
  pub no_path : includes t (b'/' ∷ []) ≡ false
  pub no_wildcard : includes t (b'*' ∷ []) ≡ false
  pub no_ip : is_ip t ≡ false
  pub short : ltb 253 (length t) ≡ false

pub check_shape-none : (t : Text) → check_shape t ≡ none → IsShaped t
unfolding check_shape
check_shape-none t e = ground arith

-- The registrable domain is listed, not the program's own, not the whole name and not reserved.
pub record IsRegistrable (p : Parsed) (v : Validated) : Type 0 where
  pub parsed : p.domain ≡ some v.registrable
  pub listed : (p.is_icann || p.is_private) ≡ true
  pub foreign : v.registrable ≢ swkoo_kr_domain
  pub below : v.normalized ≢ v.registrable
  pub unreserved : is_reserved v.registrable ≡ false

registrable_ok :
    (normalized registrable : Text) (v : Validated)
    → check_registrable normalized registrable ≡ ok v
    → (v ≡ record { normalized = normalized; registrable = registrable })
      × ((registrable == swkoo_kr_domain) ≡ false)
      × ((normalized == registrable) ≡ false)
      × (is_reserved registrable ≡ false)
unfolding check_registrable
registrable_ok normalized registrable v e = ground arith

domain_ok :
    (normalized : Text) (icann private : Bool) (d : Option Text) (v : Validated)
    → check_domain normalized icann private d ≡ ok v
    → (normalized ≡ v.normalized)
      × IsRegistrable (record { domain = d; is_icann = icann; is_private = private }) v
unfolding check_domain
domain_ok normalized icann private none v e = absurd (cc)
domain_ok normalized icann private (some []) v e = absurd (cc)
domain_ok normalized icann private (some (c ∷ d)) v e =
    let listed : (not icann && not private) ≡ false = ground arith in
    let (made, foreign, below, unreserved) = registrable_ok normalized (c ∷ d) v (rw listed at e) in
    rw made (
      refl,
      record {
        parsed = refl;
        listed = ground arith;
        foreign = λ x. cc (foreign, (text_beq_iff (c ∷ d) swkoo_kr_domain).1 x);
        below = λ x. cc (below, (text_beq_iff normalized (c ∷ d)).1 x);
        unreserved = unreserved;
      },
    )

-- An accepted input, unit by unit.
pub record IsAccepted (parse : Text → Parsed) (input : Text) (v : Validated) : Type 0 where
  pub shaped : IsShaped (trim input)
  pub lowered : v.normalized ≡ to_lower (trim input)
  pub labels : all label_ok (split b'.' v.normalized) ≡ true
  pub registrable : IsRegistrable (parse v.normalized) v

labels_ok :
    (parse : Text → Parsed) (normalized : Text) (v : Validated)
    → check_labels parse normalized ≡ ok v
    → (normalized ≡ v.normalized)
      × (all label_ok (split b'.' normalized) ≡ true)
      × IsRegistrable (parse normalized) v
unfolding check_labels check_suffix
labels_ok parse normalized v e = elim (Bool-cases (all label_ok (split b'.' normalized))) [
  | inl good ↦
      let p = parse normalized in
      let (same, reg) = domain_ok normalized p.is_icann p.is_private p.domain v (rw good at e) in
      (same, good, reg)
  | inr bad ↦ absurd (cc (rw bad at e))
]

pub validate-IsAccepted :
    (parse : Text → Parsed) (input : Text) (v : Validated)
    → validate_custom_domain parse input ≡ ok v
    → IsAccepted parse input v
unfolding validate_custom_domain
validate-IsAccepted parse input v e = elim (Option-cases (check_shape (trim input))) [
  | inr (reason, bad) ↦ absurd (cc (rw bad at e))
  | inl good ↦
      let (same, labels, reg) = labels_ok parse (to_lower (trim input)) v (rw good at e) in
      record {
        shaped = check_shape-none (trim input) good;
        lowered = sym same;
        labels = rw (← same) labels;
        registrable = subst (λ x. IsRegistrable (parse x) v) same reg;
      }
]

-- `[a-z0-9.-]`
abbrev pub is_host_unit : ℕ → Bool
is_host_unit c = is_label_unit c || c == b'.'

label_units : (l : Text) → label_ok l ≡ true → all is_label_unit l ≡ true
unfolding label_ok
label_units l h = ground arith

pub labels-host : (t : Text) → all label_ok (split b'.' t) ≡ true → all is_host_unit t ≡ true
labels-host t h =
    split-all is_label_unit b'.' t
      (all-weaken label_ok (all is_label_unit) (split b'.' t) label_units h)

-- What the program may rely on: the name is made of [a-z0-9.-], so it can be put into a manifest
-- or a URL as it is; it fits into 253 bytes; and it lies below a registrable domain that is listed
-- and neither swkoo.kr nor reserved.
pub record IsHostName (p : Parsed) (v : Validated) : Type 0 where
  pub units : all is_host_unit v.normalized ≡ true
  pub labels : all label_ok (split b'.' v.normalized) ≡ true
  pub fits : length v.normalized ≤ 253
  pub registrable : IsRegistrable p v

-- A domain that the validation accepts is a host name of at most 253 units of [a-z0-9.-] in valid
-- labels, below a listed registrable domain that is neither swkoo.kr nor reserved.
pub validate-IsHostName :
    (parse : Text → Parsed) (input : Text) (v : Validated)
    → validate_custom_domain parse input ≡ ok v
    → IsHostName (parse v.normalized) v
validate-IsHostName parse input v e =
    let a = validate-IsAccepted parse input v e in
    let units = labels-host v.normalized a.labels in
    let same : length (to_lower (trim input)) ≡ length (trim input) =
      length-to_lower is_host_unit (trim input) refl (rw a.lowered at units) in
    record {
      units = units;
      labels = a.labels;
      fits = rw a.lowered (ground (arith, same, a.shaped.short));
      registrable = a.registrable;
    }
