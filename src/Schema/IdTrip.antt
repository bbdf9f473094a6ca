-- ===== src/Schema/IdTrip.antt =====
-- What Id reads of an identifier that it has made.
use terraform_provider_confl.Base.{
  ℕ, ◌≡◌, refl, sym, ap, ◌∙◌, Bool, true, false, some, List, [], ◌∷◌, ◌++◌, ◌==◌, codes, Bool-cases,
  inl, inr, arith,
}
use mathlib.Core.Path.{subst}
use terraform_provider_confl.Kafka.{Text}
use terraform_provider_confl.Kafka.AclDrift.{text_eq_sound}
use terraform_provider_confl.Kafka.Separated.{join, split, prepend, Lacks, split-part, split-last}
use terraform_provider_confl.Oauth.Decimal.{itoa, itoa-Lacks}
use terraform_provider_confl.Schema.Id.{
  is_latest_schema, slash, three_parts, last_part, create_schema_id, before_last, last_of, parts_of,
  extract_subject_info_from_tf_id,
}

-- A text has a first part.
split-head : (c : ℕ) (s : Text) → (t : Text) × (ts : List Text) × (split c s ≡ t ∷ ts)
unfolding split
split-head c [] = ([], [], refl)
split-head c (b ∷ s) = elim (Bool-cases (b == c)) [
  | inl same ↦ ([], split c s, rw same refl)
  | inr other ↦ let (t, ts, parts) = split-head c s in (b ∷ t, ts, rw (other, parts, prepend) refl)
]

prepend-++ :
    (b : ℕ) (t : Text) (ts us : List Text) → prepend b (t ∷ ts) ++ us ≡ prepend b ((t ∷ ts) ++ us)
unfolding prepend
prepend-++ b t ts us = refl

-- The parts of two texts with a separator between them.
split-++ : (c : ℕ) (s t : Text) → split c (s ++ c ∷ t) ≡ split c s ++ split c t
unfolding split
split-++ c [] t = let same : (c == c) ≡ true = ground arith in rw same refl
split-++ c (b ∷ s) t = elim (Bool-cases (b == c)) [
  | inl same ↦ rw (same, split-++ c s t) refl
  | inr other ↦
      let (u, us, parts) = split-head c s in
      rw (other, split-++ c s t, parts) (sym (prepend-++ b u us (split c t)))
]

join-prepend :
    (c b : ℕ) (t : Text) (ts : List Text) → join c (prepend b (t ∷ ts)) ≡ b ∷ join c (t ∷ ts)
unfolding join prepend
join-prepend c b t [] = refl
join-prepend c b t (u ∷ us) = refl

-- The parts of a text, joined again.
join-split : (c : ℕ) (s : Text) → join c (split c s) ≡ s
unfolding split join
join-split c [] = refl
join-split c (b ∷ s) = elim (Bool-cases (b == c)) [
  | inl same ↦
      let (t, ts, parts) = split-head c s in
      let rest : join c (t ∷ ts) ≡ s = rw (sym parts) (join-split c s) in
      let first : c ≡ b = ground arith in
      rw (same, parts, join) (ap (λ u. c ∷ u) rest ∙ ap (λ d. d ∷ s) first)
  | inr other ↦
      let (t, ts, parts) = split-head c s in
      let rest : join c (t ∷ ts) ≡ s = rw (sym parts) (join-split c s) in
      rw (other, parts) (join-prepend c b t ts ∙ ap (λ u. b ∷ u) rest)
]

before_last-++ : (ts : List Text) (last : Text) → before_last (ts ++ last ∷ []) ≡ ts
before_last-++ [] last = refl
before_last-++ (t ∷ []) last = refl
before_last-++ (t ∷ u ∷ ts) last = ap (λ rest. t ∷ rest) (before_last-++ (u ∷ ts) last)

last_of-++ : (ts : List Text) (last : Text) → last_of (ts ++ last ∷ []) ≡ last
last_of-++ [] last = refl
last_of-++ (t ∷ []) last = refl
last_of-++ (t ∷ u ∷ ts) last = last_of-++ (u ∷ ts) last

parts_of-++ :
    (cluster_id t : Text) (ts : List Text) (last : Text)
    → parts_of (cluster_id ∷ ((t ∷ ts) ++ last ∷ []))
      ≡ some (
        cluster_id,
        join slash (before_last ((t ∷ ts) ++ last ∷ [])),
        last_of ((t ∷ ts) ++ last ∷ []),
      )
parts_of-++ cluster_id t [] last = refl
parts_of-++ cluster_id t (u ∷ ts) last = refl

-- An identifier whose first and last part lack the separator.
pub extract_subject_info_from_tf_id-three_parts :
    (cluster_id subject_name last : Text)
    → Lacks slash cluster_id
    → Lacks slash last
    → extract_subject_info_from_tf_id (three_parts cluster_id subject_name last)
      ≡ some (cluster_id, subject_name, last)
unfolding extract_subject_info_from_tf_id
extract_subject_info_from_tf_id-three_parts cluster_id subject_name last first end =
    let (t, ts, parts) = split-head slash subject_name in
    let whole : join slash (t ∷ ts) ≡ subject_name =
      rw (sym parts) (join-split slash subject_name) in
    let all_parts : split slash (three_parts cluster_id subject_name last)
        ≡ cluster_id ∷ ((t ∷ ts) ++ last ∷ []) =
      split-part slash cluster_id (subject_name ++ slash ∷ last) first
      ∙ ap (λ us. cluster_id ∷ us) (split-++ slash subject_name last)
      ∙ rw (parts, split-last slash last end) refl in
    rw (all_parts) (
      parts_of-++ cluster_id t ts last
      ∙ rw (before_last-++ (t ∷ ts) last, last_of-++ (t ∷ ts) last, whole) refl)

pub last_part-Lacks :
    (identifier : ℕ) (recreate : Bool) → Lacks slash (last_part identifier recreate)
last_part-Lacks identifier true = itoa-Lacks slash identifier (λ d. λ h. ground arith)
last_part-Lacks identifier false = refl

-- A number is not `latest`: it has no `l`.
pub is_latest_schema-itoa : (n : ℕ) → is_latest_schema (itoa n) ≡ false
unfolding is_latest_schema
is_latest_schema-itoa n = elim (Bool-cases (is_latest_schema (itoa n))) [
  | inr number ↦ number
  | inl latest ↦
      let same = text_eq_sound (itoa n) (codes "latest") latest in
      let none_there : Lacks 108 (itoa n) = itoa-Lacks 108 n (λ d. λ h. ground arith) in
      let none_here : Lacks 108 (codes "latest") = subst (λ s. Lacks 108 s) same none_there in
      absurd (omega arith)
]

-- The identifier that is made for a resource is read as the cluster, the subject's name and
-- the schema's identifier, or `latest`, that it was made from, if the cluster's id has no `/`. The
-- name of the subject may have any.
pub extract_subject_info_from_tf_id-create_schema_id :
    (cluster_id subject_name : Text) (identifier : ℕ) (recreate : Bool)
    → Lacks slash cluster_id
    → extract_subject_info_from_tf_id (create_schema_id cluster_id subject_name identifier recreate)
      ≡ some (cluster_id, subject_name, last_part identifier recreate)
unfolding create_schema_id
extract_subject_info_from_tf_id-create_schema_id cluster_id subject_name identifier recreate first =
    extract_subject_info_from_tf_id-three_parts cluster_id subject_name
      (last_part identifier recreate) first (last_part-Lacks identifier recreate)
