-- ===== src/Schema/Passed.antt =====
-- internal/provider/resource_schema.go: what each check of a plan leaves to the next.
use terraform_provider_confl.Base.{
  ℕ, ◌≡◌, refl, ap, Bool, true, false, not, ◌&&◌, ==_iff, Option, none, some, [], ◌∷◌, Bool-cases,
  inl, inr, ◌⊎◌, if◌then◌else◌,
}
use mathlib.Core.Path.{subst}
use mathlib.Core.Bool.{false≢true}
use terraform_provider_confl.Kafka.{Text}
use terraform_provider_confl.Kafka.Settings.{is_set}
use terraform_provider_confl.Schema.Request.{RuleSet, RegisterSchemaRequest}
use terraform_provider_confl.Schema.Registry.{SchemaData, SrSchema, SchemaError}
use terraform_provider_confl.Schema.Plan.{
  LookedUp, exists_as, not_registered, lookup_failed, Matched, has_rule_set, or_normalized, is_own,
  first_lookup, second_lookup, refuse_recreation, has_schema_change, set_old_schema_value,
}

abbrev pub Planned : Type 0
Planned = Option SchemaError × SchemaData

abbrev pub accepted : SchemaData → Planned
accepted d = (none, d)

abbrev pub own : Matched
own = (none, true)

pub refused_plan :
    {e : SchemaError} → {d d' : SchemaData} → Path Planned (some e, d) (accepted d') → ⊥
refused_plan {e} {d} {d'} h =
    let first : Path (Option SchemaError) (some e) none = ap (λ r. r.0) h in cc

pub same_plan : {d d' : SchemaData} → Path Planned (none, d) (accepted d') → d ≡ d'
same_plan h = ap (λ r. r.1) h

pub second_lookup_lem :
    (d u : SchemaData) (m : Matched)
    → second_lookup d m ≡ accepted u
    → ((m ≡ own) × (set_old_schema_value d ≡ u)) ⊎ (d ≡ u)
second_lookup_lem d u (some e, b) h = absurd (refused_plan h)
second_lookup_lem d u (none, true) h = inl (refl, same_plan h)
second_lookup_lem d u (none, false) h = inr (same_plan h)

lacks_rule_set :
    (r : Option RuleSet) → (elim r [ none ↦ false | some there ↦ true ]) ≡ false → r ≡ none
lacks_rule_set none h = refl
lacks_rule_set (some there) h = absurd (cc)

pub first_lookup_lem :
    (d u : SchemaData) (q : RegisterSchemaRequest) (m m2 : Matched)
    → first_lookup d q m m2 ≡ accepted u
    → ((m ≡ own) × (set_old_schema_value d ≡ u))
      ⊎ (((q.rule_set ≡ none) × (m2 ≡ own) × (set_old_schema_value d ≡ u)) ⊎ (d ≡ u))
first_lookup_lem d u q (some e, b) m2 h = absurd (refused_plan h)
first_lookup_lem d u q (none, true) m2 h = inl (refl, same_plan h)
first_lookup_lem d u q (none, false) m2 h = elim (Bool-cases (has_rule_set q)) [
  | inl has ↦ inr (inr (same_plan (rw has at h)))
  | inr lacks ↦ elim (second_lookup_lem d u m2 (rw lacks at h)) [
    | inl (second, same) ↦ inr (inl (lacks_rule_set q.rule_set lacks, second, same))
    | inr same ↦ inr (inr same)
  ]
]

pub refuse_recreation_lem :
    (p : Planned) (d' : SchemaData)
    → refuse_recreation p ≡ accepted d'
    → (p ≡ accepted d') × ((d'.recreate_on_update && has_schema_change d') ≡ false)
refuse_recreation_lem (some e, d) d' h = absurd (refused_plan h)
refuse_recreation_lem (none, d) d' h =
    elim (Bool-cases (d.recreate_on_update && has_schema_change d)) [
      | inl refused_there ↦ absurd (refused_plan (rw refused_there at h))
      | inr fine ↦
          let same = same_plan (rw fine at h) in
          (
            ap accepted same,
            subst (λ u. (u.recreate_on_update && has_schema_change u) ≡ false) same fine,
          )
    ]

pub is_own_lem :
    (i : ℕ) (l : LookedUp) → is_own i l ≡ own → (s : SrSchema) × (l ≡ exists_as s) × (s.id ≡ i)
is_own_lem i (exists_as s) h = (s, refl, (==_iff s.id i).0 (ap (λ m. m.1) h))
is_own_lem i not_registered h = absurd (false≢true (ap (λ m. m.1) h))
is_own_lem i (lookup_failed e) h = absurd (false≢true (ap (λ m. m.1) h))

pub or_normalized_lem :
    (l m : LookedUp) (s : SrSchema)
    → or_normalized l m ≡ exists_as s
    → (l ≡ exists_as s) ⊎ (m ≡ exists_as s)
or_normalized_lem (exists_as t) m s h = inl h
or_normalized_lem not_registered m s h = inr h
or_normalized_lem (lookup_failed e) m s h = absurd (cc)

pub validation_passed :
    (skip : Bool) (o : Option SchemaError) (rest : Planned) (d d' : SchemaData)
    → (if skip then rest else elim o [ some e ↦ (some e, d) | none ↦ rest ]) ≡ accepted d'
    → (rest ≡ accepted d') × ((skip ≡ true) ⊎ (o ≡ none))
validation_passed true o rest d d' h = (h, inl refl)
validation_passed false none rest d d' h = (h, inr refl)
validation_passed false (some e) rest d d' h = absurd (refused_plan h)

pub known_id :
    (id : Text) (rest : Planned) (d d' : SchemaData)
    → is_set id ≡ true
    → (if not (is_set id) then (none, d) else rest) ≡ accepted d'
    → rest ≡ accepted d'
known_id [] rest d d' known h = absurd (false≢true known)
known_id (b ∷ id) rest d d' known h = h

pub with_change :
    (changed can : Bool) (rest : Planned) (d d' : SchemaData)
    → changed ≡ true
    → can ≡ true
    → (if not changed then (none, d) else if not can then (none, d) else rest) ≡ accepted d'
    → rest ≡ accepted d'
with_change true true rest d d' a b h = h
with_change true false rest d d' a b h = absurd (false≢true b)
with_change false can rest d d' a b h = absurd (false≢true a)

pub both_set : (a b : Bool) → a ≡ true → b ≡ true → (a && b) ≡ true
both_set true true x y = refl
both_set true false x y = y
both_set false b x y = x

pub compatible_passed :
    (b : Bool) (e : SchemaError) → (if not b then some e else none) ≡ none → b ≡ true
compatible_passed true e h = refl
compatible_passed false e h = absurd (cc)
