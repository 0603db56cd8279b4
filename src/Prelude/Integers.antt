-- ===== src/Prelude/Integers.antt =====
-- Integers over the native numbers, as far as a column that holds an id or its negation needs
-- them; and numbers in decimal.
use swkoo_kr.Prelude.Base.{
  ℕ, zero, suc, ◌+◌, ◌/◌, ◌%◌, ◌≡◌, Bool, true, false, arith, ◌↔◌, StrictEq, nat_beq, ltb,
  if◌then◌else◌, [], ◌∷◌, ◌++◌,
}
use swkoo_kr.Prelude.Texts.{Text}

pub data ℤ : Type 0 where
  pos : ℕ → ℤ
  negsuc : ℕ → ℤ

-- `-n`
abbrev pub negate : ℕ → ℤ
negate zero = pos zero
negate (suc n) = negsuc n

abbrev pub int_beq : ℤ → ℤ → Bool
int_beq (pos m) (pos n) = nat_beq m n
int_beq (negsuc m) (negsuc n) = nat_beq m n
int_beq _ _ = false

pub int_beq_iff : (i j : ℤ) → (int_beq i j ≡ true) ↔ (i ≡ j)
int_beq_iff (pos m) (pos n) = ground arith
int_beq_iff (negsuc m) (negsuc n) = ground arith
int_beq_iff (pos m) (negsuc n) = ground arith
int_beq_iff (negsuc m) (pos n) = ground arith

instance abbrev pub int_eq : StrictEq ℤ
int_eq = record { same_iff = int_beq_iff; same = int_beq }

-- `n` in decimal with `left` more digits at most.
unfoldable pub digits : ℕ → ℕ → Text
digits zero n = []
digits (suc left) n =
    let before = digits left (n / 10) in
    if ltb n 10 then (b'0' + n) ∷ [] else before ++ (b'0' + n % 10) ∷ []

-- An integer of SQLite has nineteen digits at most.
abbrev pub decimal : ℕ → Text
decimal n = digits 19 n
