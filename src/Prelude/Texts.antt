-- ===== src/Prelude/Texts.antt =====
-- JavaScript strings as lists of UTF-16 code units, and the string methods that the source calls.
pub mod Units
use Prim.Native.Char.{code}
use swkoo_kr.Prelude.Base.{
  ℕ, ◌+◌, ◌≡◌, refl, ◌↔◌, String, Bool, true, false, ◌&&◌, ◌||◌, List, [], ◌∷◌, ◌++◌, arith, leb,
  nat_beq, if◌then◌else◌, StrictEq, ◌==◌, nat_eq,
}

abbrev pub Text : Type 0
Text = List ℕ

-- A literal; every literal of the source lies in the basic plane, where a character is one unit.
unfoldable pub lit : String → Text
lit String.[] = []
lit (String.◌∷◌ c s) = code c ∷ lit s

unfoldable pub text_beq : Text → Text → Bool
text_beq [] [] = true
text_beq (x ∷ xs) (y ∷ ys) = nat_beq x y && text_beq xs ys
text_beq _ _ = false

pub text_beq→eq : (s t : Text) → text_beq s t ≡ true → s ≡ t
unfolding text_beq
text_beq→eq [] [] e = refl
text_beq→eq (x ∷ xs) (y ∷ ys) e = ground (arith, text_beq→eq xs ys)
text_beq→eq [] (y ∷ ys) e = ground arith
text_beq→eq (x ∷ xs) [] e = ground arith

pub text_beq_refl : (s : Text) → text_beq s s ≡ true
unfolding text_beq
text_beq_refl [] = refl
text_beq_refl (x ∷ xs) = ground (arith, text_beq_refl xs)

pub text_beq_iff : (s t : Text) → (text_beq s t ≡ true) ↔ (s ≡ t)
text_beq_iff s t = (text_beq→eq s t, λ e. ground (arith, text_beq_refl s))

instance abbrev pub text_eq : StrictEq Text
text_eq = record { same_iff = text_beq_iff; same = text_beq }

abbrev pub is_digit : ℕ → Bool
is_digit c = leb b'0' c && leb c b'9'

abbrev pub is_lower : ℕ → Bool
is_lower c = leb b'a' c && leb c b'z'

abbrev pub is_upper : ℕ → Bool
is_upper c = leb b'A' c && leb c b'Z'

-- One unit of `toLowerCase`. Beside the ASCII letters only U+212A (to `k`) and U+0130 (to `i`
-- with a dot above) become ASCII; the other letters keep being outside ASCII, and stay as they are.
unfoldable pub lower_unit : ℕ → Text
lower_unit c =
    if is_upper c
    then (c + 32) ∷ []
    else if c == 0x212a
    then b'k' ∷ []
    else if c == 0x130
    then b'i' ∷ 0x307 ∷ []
    else c ∷ []

-- `s.toLowerCase()`
unfoldable pub to_lower : Text → Text
unfolding lower_unit
to_lower [] = []
to_lower (c ∷ s) = lower_unit c ++ to_lower s

-- The white space and line ends that `trim` removes.
abbrev pub is_space : ℕ → Bool
is_space c =
    (leb 9 c && leb c 13)
    || c == 32
    || c == 0xa0
    || c == 0x1680
    || (leb 0x2000 c && leb c 0x200a)
    || c == 0x2028
    || c == 0x2029
    || c == 0x202f
    || c == 0x205f
    || c == 0x3000
    || c == 0xfeff

unfoldable pub trim_start : Text → Text
trim_start [] = []
trim_start (c ∷ s) = if is_space c then trim_start s else c ∷ s

-- A unit at the end stays if it or a later one is no space.
abbrev push_end : ℕ → Text → Text
push_end c [] = if is_space c then [] else c ∷ []
push_end c (d ∷ s) = c ∷ d ∷ s

unfoldable pub trim_end : Text → Text
trim_end [] = []
trim_end (c ∷ s) = push_end c (trim_end s)

-- `s.trim()`
unfoldable pub trim : Text → Text
unfolding trim_start trim_end
trim s = trim_end (trim_start s)

-- `s.startsWith(p)`
unfoldable pub starts_with : Text → Text → Bool
starts_with s [] = true
starts_with [] (d ∷ p) = false
starts_with (c ∷ s) (d ∷ p) = c == d && starts_with s p

-- `s.includes(p)`
unfoldable pub includes : Text → Text → Bool
unfolding starts_with
includes [] p = starts_with [] p
includes (c ∷ s) p = starts_with (c ∷ s) p || includes s p

-- `s.endsWith(p)`
unfoldable pub ends_with : Text → Text → Bool
ends_with [] p = [] == p
ends_with (c ∷ s) p = (c ∷ s) == p || ends_with s p

-- `s.split(d)`, for a separator of one unit
abbrev pub cons_head : ℕ → List Text → List Text
cons_head c [] = (c ∷ []) ∷ []
cons_head c (w ∷ ws) = (c ∷ w) ∷ ws

unfoldable pub split : ℕ → Text → List Text
split d [] = [] ∷ []
split d (c ∷ s) = if c == d then [] ∷ split d s else cons_head c (split d s)

-- `ws.join(d)`
unfoldable pub join : Text → List Text → Text
join d [] = []
join d (w ∷ []) = w
join d (w ∷ v ∷ ws) = w ++ d ++ join d (v ∷ ws)
