-- ===== src/Oauth/Decimal.antt =====
-- Go's `strconv.Itoa` on a number that is not negative, and `strconv.ParseInt(s, 10, 32)`.
use terraform_provider_confl.Base.{
  ℕ, zero, suc, ◌+◌, ◌-◌, ◌*◌, ◌/◌, ◌<◌, ◌≡◌, refl, sym, ap, ◌∙◌, Bool, true, false, ◌&&◌, Option,
  none, some, List, [], ◌∷◌, ◌==◌, ltb, leb, if◌then◌else◌, Bool-cases, inl, inr, arith,
}
use Prim.Native.Nat.{◌%◌}
use terraform_provider_confl.Kafka.Separated.{Lacks}

-- The digits of `n` before those of `rest`; the fuel is above the number of digits.
unfoldable itoa_from : (fuel n : ℕ) → List ℕ → List ℕ
itoa_from zero n rest = rest
itoa_from (suc fuel) n rest = elim (ltb n 10) [
  | true ↦ (48 + n) ∷ rest
  | false ↦ itoa_from fuel (n / 10) ((48 + n % 10) ∷ rest)
]

unfoldable pub itoa : ℕ → List ℕ
unfolding itoa_from
itoa n = itoa_from (suc n) n []

-- The number that the digits continue, or none if another byte is met.
unfoldable digits_from : ℕ → List ℕ → Option ℕ
digits_from n [] = some n
digits_from n (c ∷ s) = if leb 48 c && leb c 57 then digits_from (n * 10 + (c - 48)) s else none

unfoldable digits : List ℕ → Option ℕ
unfolding digits_from
digits [] = none
digits (c ∷ s) = digits_from 0 (c ∷ s)

-- A sign and a magnitude, if it is at most `limit`.
abbrev within : Bool → ℕ → Option ℕ → Option (Bool × ℕ)
within negative limit none = none
within negative limit (some n) = if leb n limit then some (negative, n) else none

abbrev pub max_int32 : ℕ
max_int32 = 2147483647

unfoldable pub parse_int : List ℕ → Option (Bool × ℕ)
unfolding digits
parse_int [] = none
parse_int (c ∷ s) =
    if c == 45
    then within true (suc max_int32) (digits s)
    else if c == 43
    then within false max_int32 (digits s)
    else within false max_int32 (digits (c ∷ s))

-- A digit is read.
digits_from-digit :
    (n d : ℕ) (rest : List ℕ)
    → d < 10
    → digits_from n ((48 + d) ∷ rest) ≡ digits_from (n * 10 + d) rest
unfolding digits_from
digits_from-digit n d rest h =
    let low : leb 48 (48 + d) ≡ true = ground arith in
    let high : leb (48 + d) 57 ≡ true = ground arith in
    let value : 48 + d - 48 ≡ d = omega arith in rw (low, high, value)

itoa_from-small :
    (fuel n : ℕ) (rest : List ℕ) → ltb n 10 ≡ true → itoa_from (suc fuel) n rest ≡ (48 + n) ∷ rest
unfolding itoa_from
itoa_from-small fuel n rest h = rw (h, itoa_from) refl

itoa_from-large :
    (fuel n : ℕ) (rest : List ℕ)
    → ltb n 10 ≡ false
    → itoa_from (suc fuel) n rest ≡ itoa_from fuel (n / 10) ((48 + n % 10) ∷ rest)
unfolding itoa_from
itoa_from-large fuel n rest h = rw (h, itoa_from) refl

-- The digits of a number are read as that number, after what has been read.
digits_from-itoa_from :
    (fuel n : ℕ) (rest : List ℕ)
    → n < fuel
    → digits_from 0 (itoa_from fuel n rest) ≡ digits_from n rest
digits_from-itoa_from zero n rest h = absurd (omega arith)
digits_from-itoa_from (suc fuel) n rest h = elim (Bool-cases (ltb n 10)) [
  | inl small ↦
      let whole : 0 * 10 + n ≡ n = omega arith in
      ap (digits_from 0) (itoa_from-small fuel n rest small)
      ∙ digits_from-digit 0 n rest (ground arith)
      ∙ ap (λ m. digits_from m rest) whole
  | inr large ↦
      let fits : n / 10 < fuel = ground arith in
      let back : n / 10 * 10 + n % 10 ≡ n = omega arith in
      ap (digits_from 0) (itoa_from-large fuel n rest large)
      ∙ digits_from-itoa_from fuel (n / 10) ((48 + n % 10) ∷ rest) fits
      ∙ digits_from-digit (n / 10) (n % 10) rest (omega arith)
      ∙ ap (λ m. digits_from m rest) back
]

-- The first byte of a printed number is a digit.
itoa_from-head :
    (fuel n : ℕ) (rest : List ℕ)
    → n < fuel
    → (d : ℕ) × (s : List ℕ) × (itoa_from fuel n rest ≡ (48 + d) ∷ s)
itoa_from-head zero n rest h = absurd (omega arith)
itoa_from-head (suc fuel) n rest h = elim (Bool-cases (ltb n 10)) [
  | inl small ↦ (n, rest, itoa_from-small fuel n rest small)
  | inr large ↦
      let fits : n / 10 < fuel = ground arith in
      let (d, s, same) = itoa_from-head fuel (n / 10) ((48 + n % 10) ∷ rest) fits in
      (d, s, itoa_from-large fuel n rest large ∙ same)
]

parse_int-digit :
    (d n : ℕ) (s : List ℕ)
    → digits_from 0 ((48 + d) ∷ s) ≡ some n
    → leb n max_int32 ≡ true
    → parse_int ((48 + d) ∷ s) ≡ some (false, n)
unfolding parse_int digits
parse_int-digit d n s read small =
    let minus : (48 + d == 45) ≡ false = ground arith in
    let plus : (48 + d == 43) ≡ false = ground arith in rw (minus, plus, read, small)

-- A number that is at most the greatest int32 is printed as a text that is read as that number.
pub parse_int-itoa : (n : ℕ) → n < 2147483648 → parse_int (itoa n) ≡ some (false, n)
unfolding itoa
parse_int-itoa n h =
    let (d, s, same) = itoa_from-head (suc n) n [] (omega arith) in
    let read = digits_from-itoa_from (suc n) n [] (omega arith) in
    ap parse_int same
    ∙ parse_int-digit d n s (ap (digits_from 0) (sym same) ∙ read ∙ unfold digits_from in refl)
        (ground arith)

-- A printed number has no byte but digits.
itoa_from-Lacks :
    (c fuel n : ℕ) (rest : List ℕ)
    → ((d : ℕ) → d < 10 → (48 + d == c) ≡ false)
    → Lacks c rest
    → Lacks c (itoa_from fuel n rest)
itoa_from-Lacks c zero n rest other h = unfold itoa_from in h
itoa_from-Lacks c (suc fuel) n rest other h = elim (Bool-cases (ltb n 10)) [
  | inl small ↦
      let differs = other n (ground arith) in
      rw (itoa_from-small fuel n rest small, differs) (omega arith)
  | inr large ↦
      let differs = other (n % 10) (omega arith) in
      let more : Lacks c ((48 + n % 10) ∷ rest) = rw differs (omega arith) in
      rw (itoa_from-large fuel n rest large)
        (itoa_from-Lacks c fuel (n / 10) ((48 + n % 10) ∷ rest) other more)
]

pub itoa-Lacks : (c n : ℕ) → ((d : ℕ) → d < 10 → (48 + d == c) ≡ false) → Lacks c (itoa n)
unfolding itoa
itoa-Lacks c n other = itoa_from-Lacks c (suc n) n [] other refl
