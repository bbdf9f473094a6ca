-- ===== src/Kafka/Separated.antt =====
-- Go's `strings.Join` and `strings.Split` with a separator of one byte.
use terraform_provider_confl.Base.{
  ℕ, suc, ◌+◌, ◌<◌, ◌≡◌, refl, ap, ◌∙◌, true, false, List, [], ◌∷◌, ◌++◌, ◌==◌, if◌then◌else◌,
  length, All, arith, Bool-cases, inl, inr,
}
use terraform_provider_confl.Kafka.{Text}

unfoldable pub join : ℕ → List Text → Text
join c [] = []
join c (s ∷ []) = s
join c (s ∷ t ∷ ts) = s ++ c ∷ join c (t ∷ ts)

-- A byte in front of the first part.
unfoldable pub prepend : ℕ → List Text → List Text
prepend b [] = (b ∷ []) ∷ []
prepend b (s ∷ ts) = (b ∷ s) ∷ ts

-- It has one part at least.
unfoldable pub split : ℕ → Text → List Text
unfolding prepend
split c [] = [] ∷ []
split c (b ∷ s) = let rest = split c s in if b == c then [] ∷ rest else prepend b rest

abbrev pub count : ℕ → Text → ℕ
count c [] = 0
count c (b ∷ s) = (if b == c then 1 else 0) + count c s

-- A text without the byte.
abbrev pub Lacks : ℕ → Text → Type 0
Lacks c s = count c s ≡ 0

Lacks-head : (c b : ℕ) (s : Text) → Lacks c (b ∷ s) → ((b == c) ≡ false) × Lacks c s
Lacks-head c b s h = elim (Bool-cases (b == c)) [
  | inl same ↦ absurd (let h1 = rw same at h in omega arith)
  | inr other ↦ let h1 = rw other at h in (other, omega arith)
]

-- A part that lacks the separator is split off before it.
pub split-part : (c : ℕ) (s rest : Text) → Lacks c s → split c (s ++ c ∷ rest) ≡ s ∷ split c rest
unfolding split
split-part c [] rest h = let same : (c == c) ≡ true = ground arith in rw same refl
split-part c (b ∷ s) rest h =
    let (first, others) = Lacks-head c b s h in rw (first, split-part c s rest others, prepend) refl

pub split-last : (c : ℕ) (s : Text) → Lacks c s → split c s ≡ s ∷ []
unfolding split
split-last c [] h = refl
split-last c (b ∷ s) h =
    let (first, others) = Lacks-head c b s h in rw (first, split-last c s others, prepend) refl

-- Joined parts that lack the separator are split into these parts.
pub split-join :
    (c : ℕ) (s : Text) (ts : List Text)
    → All (Lacks c) (s ∷ ts)
    → split c (join c (s ∷ ts)) ≡ s ∷ ts
unfolding join
split-join c s [] (h, _) = split-last c s h
split-join c s (t ∷ ts) (h, others) =
    split-part c s (join c (t ∷ ts)) h ∙ ap (λ p. s ∷ p) (split-join c t ts others)

pub count-++ : (c : ℕ) (s t : Text) → count c (s ++ t) ≡ count c s + count c t
count-++ c [] t = omega arith
count-++ c (b ∷ s) t = let rest = count-++ c s t in omega arith

length-prepend : (b : ℕ) (ts : List Text) → 0 < length ts → length (prepend b ts) ≡ length ts
unfolding prepend
length-prepend b [] h = absurd (omega arith)
length-prepend b (s ∷ ts) h = refl

-- There is one part more than there are separators.
pub length-split : (c : ℕ) (s : Text) → length (split c s) ≡ suc (count c s)
unfolding split
length-split c [] = refl
length-split c (b ∷ s) = elim (Bool-cases (b == c)) [
  | inl same ↦ let rest = length-split c s in rw (same, rest) (omega arith)
  | inr other ↦
      let rest = length-split c s in
      let there : 0 < length (split c s) = omega arith in
      rw (other, length-prepend b (split c s) there, rest) (omega arith)
]

abbrev pub counts : ℕ → List Text → ℕ
counts c [] = 0
counts c (s ∷ ts) = count c s + counts c ts

-- The separators of joined parts are those of the parts and those between them.
pub count-join :
    (c : ℕ) (s : Text) (ts : List Text) → count c (join c (s ∷ ts)) ≡ counts c (s ∷ ts) + length ts
unfolding join
count-join c s [] = omega arith
count-join c s (t ∷ ts) =
    let same : (c == c) ≡ true = ground arith in
    let rest = count-join c t ts in
    let here : count c (c ∷ join c (t ∷ ts)) ≡ 1 + count c (join c (t ∷ ts)) = rw same refl in
    let whole = count-++ c s (c ∷ join c (t ∷ ts)) in
    whole ∙ ap (λ n. count c s + n) here ∙ omega arith

-- Another byte is only in the parts.
pub count-join_other :
    (c d : ℕ) (ts : List Text) → (d == c) ≡ false → count c (join d ts) ≡ counts c ts
unfolding join
count-join_other c d [] other = refl
count-join_other c d (s ∷ []) other = omega arith
count-join_other c d (s ∷ t ∷ ts) other =
    let rest = count-join_other c d (t ∷ ts) other in
    let here : count c (d ∷ join d (t ∷ ts)) ≡ count c (join d (t ∷ ts)) = rw other (omega arith) in
    count-++ c s (d ∷ join d (t ∷ ts)) ∙ ap (λ n. count c s + n) (here ∙ rest)
