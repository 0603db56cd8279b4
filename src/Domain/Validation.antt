-- ===== src/Domain/Validation.antt =====
-- domain/validation.ts. The public suffix list of `tldts` is the parameter `parse`.
pub mod Accepts
pub mod Normal
use swkoo_kr.Prelude.{
  ℕ, Bool, false, not, ◌&&◌, ◌||◌, Option, none, some, List, [], ◌∷◌, ltb, leb, if◌then◌else◌, ◌==◌,
  nat_eq, Result, ok, err, length, all, any,
}
use swkoo_kr.Prelude.Texts.{
  Text, lit, text_eq, is_digit, is_lower, trim, to_lower, includes, split, starts_with, ends_with,
}

pub data RejectReason : Type 0 where
  empty protocol_or_path wildcard ip_address too_long invalid_label invalid_tld swkoo_domain :
      RejectReason
  apex_not_supported reserved_domain : RejectReason

-- What `tldts.parse` answers: the registrable domain, and which list has the suffix.
pub record Parsed : Type 0 where
  pub domain : Option Text
  pub is_icann : Bool
  pub is_private : Bool

-- `ValidationResult` with `ok: true`.
pub record Validated : Type 0 where
  pub normalized : Text
  pub registrable : Text

-- The regular expression `^\d{1,3}\.\d{1,3}\.\d{1,3}\.\d{1,3}$`.
abbrev octet : Text → Bool
octet w = ltb 0 (length w) && leb (length w) 3 && all is_digit w

abbrev four_octets : List Text → Bool
four_octets (a ∷ b ∷ c ∷ d ∷ []) = octet a && octet b && octet c && octet d
four_octets _ = false

unfoldable pub is_ip : Text → Bool
is_ip s = four_octets (split b'.' s)

-- `[a-z0-9-]`
abbrev pub is_label_unit : ℕ → Bool
is_label_unit c = is_lower c || is_digit c || c == b'-'

abbrev dash : Text
dash = b'-' ∷ []

-- One round of the loop over the labels.
unfoldable pub label_ok : Text → Bool
label_ok l =
    not (length l == 0 || ltb 63 (length l))
    && all is_label_unit l
    && not (starts_with l dash || ends_with l dash)

unfoldable pub swkoo_kr_domain : Text
unfolding lit
swkoo_kr_domain = lit "swkoo.kr"

unfoldable pub reserved_registrable_domains : List Text
unfolding lit
reserved_registrable_domains =
    lit "example.com" ∷ lit "example.net" ∷ lit "example.org" ∷ lit "example.edu" ∷ []

unfoldable pub is_reserved : Text → Bool
is_reserved registrable = any (λ d. d == registrable) reserved_registrable_domains

-- The checks after `parse`, from the line that names the registrable domain on.
unfoldable pub check_registrable : Text → Text → Result RejectReason Validated
check_registrable normalized registrable =
    if registrable == swkoo_kr_domain
    then err swkoo_domain
    else if normalized == registrable
    then err apex_not_supported
    else if is_reserved registrable
    then err reserved_domain
    else ok (record { normalized = normalized; registrable = registrable })

-- `!parsed.domain` also holds of the empty string.
unfoldable pub check_domain : Text → Bool → Bool → Option Text → Result RejectReason Validated
unfolding check_registrable
check_domain normalized is_icann is_private none = err invalid_tld
check_domain normalized is_icann is_private (some []) = err invalid_tld
check_domain normalized is_icann is_private (some (c ∷ d)) =
    if not is_icann && not is_private then err invalid_tld else check_registrable normalized (c ∷ d)

unfoldable pub check_suffix : Text → Parsed → Result RejectReason Validated
unfolding check_domain
check_suffix normalized p = check_domain normalized p.is_icann p.is_private p.domain

-- The checks of the trimmed input, up to its length.
unfoldable pub check_shape : Text → Option RejectReason
check_shape trimmed =
    if length trimmed == 0
    then some empty
    else if includes trimmed (b':' ∷ b'/' ∷ b'/' ∷ []) || includes trimmed (b'/' ∷ [])
    then some protocol_or_path
    else if includes trimmed (b'*' ∷ [])
    then some wildcard
    else if is_ip trimmed
    then some ip_address
    else if ltb 253 (length trimmed)
    then some too_long
    else none

-- The loop over the labels, and what follows it.
unfoldable pub check_labels : (Text → Parsed) → Text → Result RejectReason Validated
unfolding check_suffix
check_labels parse normalized =
    if all label_ok (split b'.' normalized)
    then check_suffix normalized (parse normalized)
    else err invalid_label

abbrev after_shape : (Text → Parsed) → Text → Option RejectReason → Result RejectReason Validated
after_shape parse trimmed none = check_labels parse (to_lower trimmed)
after_shape parse trimmed (some reason) = err reason

-- `validateCustomDomain`. An empty input is as an empty trimmed input.
unfoldable pub validate_custom_domain : (Text → Parsed) → Text → Result RejectReason Validated
unfolding check_labels check_shape
validate_custom_domain parse input = after_shape parse (trim input) (check_shape (trim input))
