-- ===== src/Decimal.antt =====
-- Go's `strconv.Atoi` and `strconv.Itoa`, on which the page tokens rest (`int` has 64 bits).
use citius_server.Prelude.{
  All, Bool-cases, inl, inr, ℕ, zero, suc, ◌+◌, ◌-◌, ◌*◌, ◌/◌, ◌%◌, ◌^◌, ◌≤◌, ◌<◌, ◌≡◌, refl, ◌&&◌,
  Option, none, some, [], ◌∷◌, arith, ltb, leb, eqb, if◌then◌else◌, Text, codes, Bool,
}
use citius_server.Prelude.Int.{ℤ, pos, negsuc}

abbrev pub max_int : ℕ
max_int = 2 ^ 63 - 1

is_digit : ℕ → Bool
is_digit c = leb b'0' c && leb c b'9'

-- The digits of `n` in front of `out`, at most `fuel` of them.
unfoldable pub emit : ℕ → ℕ → Text → Text
emit zero n out = out
emit (suc fuel) n out =
    let rest = emit fuel (n / 10) ((b'0' + n % 10) ∷ out) in
    if ltb n 10 then (b'0' + n) ∷ out else rest

-- `strconv.Itoa` of a number that is not negative; a number has no more digits than its value.
unfoldable pub itoa : ℕ → Text
unfolding emit
itoa n = emit (suc n) n []

scan : Text → ℕ → Option ℕ
unfolding is_digit
scan [] n = some n
scan (c ∷ s) n = if is_digit c then scan s (n * 10 + (c - b'0')) else none

digits : Text → Option ℕ
unfolding scan
digits [] = none
digits (c ∷ s) = scan (c ∷ s) 0

positive : Option ℕ → Option ℤ
positive none = none
positive (some n) = if leb n max_int then some (pos n) else none

negative : Option ℕ → Option ℤ
negative none = none
negative (some zero) = some (pos 0)
negative (some (suc n)) = if leb n max_int then some (negsuc n) else none

-- `strconv.Atoi`: an optional sign, at least one digit, nothing else, and no overflow.
unfoldable pub atoi : Text → Option ℤ
unfolding digits positive negative
atoi [] = none
atoi (c ∷ s) =
    if eqb c b'-'
    then negative (digits s)
    else if eqb c b'+'
    then positive (digits s)
    else positive (digits (c ∷ s))

scan-emit : (fuel n : ℕ) (out : Text) → n < fuel → scan (emit fuel n out) 0 ≡ scan out n
unfolding scan emit
scan-emit zero n out h = elim h [ ]
scan-emit (suc fuel) n out h = ground (arith, scan-emit fuel (n / 10) ((b'0' + n % 10) ∷ out))

-- The first byte that `emit` writes is a digit.
abbrev StartsWithDigit : Text → Type 0
StartsWithDigit [] = ⊥
StartsWithDigit (c ∷ s) = (b'0' ≤ c) × (c ≤ b'9')

emit-StartsWithDigit : (fuel n : ℕ) (out : Text) → n < fuel → StartsWithDigit (emit fuel n out)
unfolding emit
emit-StartsWithDigit zero n out h = elim h [ ]
emit-StartsWithDigit (suc fuel) n out h =
    ground (arith, emit-StartsWithDigit fuel (n / 10) ((b'0' + n % 10) ∷ out))

atoi_of_scan :
    (s : Text) {n : ℕ} → StartsWithDigit s → scan s 0 ≡ some n → n ≤ max_int → atoi s ≡ some (pos n)
unfolding atoi
atoi_of_scan [] d h fits = absurd d
atoi_of_scan (c ∷ s) d h fits = ground arith

-- A number that fits an `int` is read back from its decimal print.
pub atoi-itoa : (n : ℕ) → n ≤ max_int → atoi (itoa n) ≡ some (pos n)
unfolding itoa scan
atoi-itoa n fits =
    atoi_of_scan (itoa n) (emit-StartsWithDigit (suc n) n [] (omega arith))
      (scan-emit (suc n) n [] (omega arith)) fits

pub itoa-ne-nil : (n : ℕ) → ¬ (itoa n ≡ [])
unfolding itoa
itoa-ne-nil n e = ground (arith, emit-StartsWithDigit (suc n) n [] (omega arith))

reads :
    (atoi (codes "-12") ≡ some (negsuc 11))
    × (atoi (codes "+7") ≡ some (pos 7))
    × (atoi (codes "1_0") ≡ none)
    × (atoi (codes "9223372036854775808") ≡ none)
unfolding atoi
reads = (refl, refl, refl, refl)

emit_digits :
    (P : ℕ → Type 0)
    → ((d : ℕ) → d < 10 → P (b'0' + d))
    → (fuel n : ℕ) (out : Text) → All P out
    → All P (emit fuel n out)
unfolding emit
emit_digits P digit zero n out h = h
emit_digits P digit (suc fuel) n out h = elim (Bool-cases (ltb n 10)) [
  | inl last ↦ rw last (digit n (ground arith), h)
  | inr more ↦
      rw more (
        emit_digits P digit fuel (n / 10) ((b'0' + n % 10) ∷ out) (digit (n % 10) (omega arith), h))
]

-- What holds of the ten digits holds of all that `itoa` prints.
pub itoa_digits : (P : ℕ → Type 0) → ((d : ℕ) → d < 10 → P (b'0' + d)) → (n : ℕ) → All P (itoa n)
unfolding itoa
itoa_digits P digit n = emit_digits P digit (suc n) n [] tt
