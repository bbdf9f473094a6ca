-- ===== src/Schema/Found.antt =====
-- internal/provider/resource_schema.go: what a load of a schema has found.
use terraform_provider_confl.Base.{
  ◌≡◌, refl, sym, ap, ◌∙◌, Bool, true, false, not, ◌&&◌, Option, none, some, List, [], ◌∷◌,
  Bool-cases, Option-cases, inl, inr, ◌⊎◌,
}
use mathlib.Core.Bool.{false≢true}
use terraform_provider_confl.Kafka.{Text}
use terraform_provider_confl.Kafka.Acl.{text_eq}
use terraform_provider_confl.Kafka.AclDrift.{text_eq_sound}
use terraform_provider_confl.Kafka.AclState.{both_true}
use terraform_provider_confl.Kafka.Settings.{Setting, given, missing}
use terraform_provider_confl.Oauth.Decimal.{itoa}
use terraform_provider_confl.Schema.Id.{is_latest_schema}
use terraform_provider_confl.Schema.Registry.{
  SchemaData, SrSchema, SchemaRegistryRestClient, Log, SchemaApi, SchemaError,
}
use terraform_provider_confl.Schema.Loads.{
  LoadedSchema, loaded, not_loaded, LatestId, latest_id, no_latest_id, find_schema_by_id,
  found_or_not, then_load, load_schema_by_id, load_schema, load_id_for_latest_schema,
  after_load_schema, set_schema_attributes, SchemaHandled,
}
use terraform_provider_confl.Schema.Handlers.{need_setting}

-- A handler that ends without an error.
abbrev pub ended : Log → SchemaData → SchemaHandled
ended log d = (none, log, d)

pub refused_absurd :
    {e : SchemaError}
    → {log log' : Log} → {d d' : SchemaData} → Path SchemaHandled (some e, log, d) (ended log' d')
    → ⊥
refused_absurd {e} {log} {log'} {d} {d'} h =
    let first : Path (Option SchemaError) (some e) none = ap (λ r. r.0) h in cc

pub need_setting-ended {ℓ} :
    {A : Type ℓ} (log log' : Log) (d d' : SchemaData) (s : Setting A) (next : A → SchemaHandled)
    → need_setting log d s next ≡ ended log' d'
    → (a : A) × (s ≡ given a) × (next a ≡ ended log' d')
need_setting-ended log log' d d' (given a) next h = (a, refl, h)
need_setting-ended log log' d d' missing next h = absurd (refused_absurd h)

pub find_schema_by_id_lem :
    (schemas : List SrSchema) (i n : Text) (s : SrSchema)
    → find_schema_by_id schemas i n ≡ (s, true)
    → (itoa s.id ≡ i) × (s.subject ≡ n)
unfolding find_schema_by_id
find_schema_by_id_lem [] i n s h = absurd (false≢true (ap (λ p. p.1) h))
find_schema_by_id_lem (t ∷ schemas) i n s h =
    elim (Bool-cases (text_eq (itoa t.id) i && text_eq t.subject n)) [
      | inl hit ↦
          let (number, name) = both_true (text_eq (itoa t.id) i) (text_eq t.subject n) hit in
          let h1 = rw (hit, find_schema_by_id) at h in
          let same : t ≡ s = ap (λ p. p.0) h1 in
          (
            ap (λ u. itoa u.id) (sym same) ∙ text_eq_sound (itoa t.id) i number,
            ap (λ u. u.subject) (sym same) ∙ text_eq_sound t.subject n name,
          )
      | inr miss ↦ find_schema_by_id_lem schemas i n s (rw (miss, find_schema_by_id) at h)
    ]

pub loaded_inj : {s t : SrSchema} → {b c : Bool} → loaded s b ≡ loaded t c → (s ≡ t) × (b ≡ c)
loaded_inj h = (cc, cc)

pub negated_lem : (b : Bool) → not b ≡ false → b ≡ true
negated_lem true h = refl
negated_lem false h = sym h

pub found_or_not_lem :
    (p : SrSchema × Bool) (s : SrSchema) → found_or_not p ≡ loaded s false → p ≡ (s, true)
found_or_not_lem (t, there) s h =
    let (same, b) = loaded_inj h in
    let found_there = negated_lem there b in rw (same, found_there) refl

module _ (world : SchemaApi) (log : Log) (c : SchemaRegistryRestClient) (n : Text) where
  pub load_schema_by_id_lem :
      (i : Text) (s : SrSchema)
      → load_schema_by_id world log c n i ≡ loaded s false
      → (itoa s.id ≡ i) × (s.subject ≡ n)
  unfolding load_schema_by_id
  load_schema_by_id_lem i s h = elim (Option-cases (world.get_schemas log c n).err) [
    | inr (e, bad) ↦ absurd (let h1 = rw (bad, load_schema_by_id) at h in cc)
    | inl ok_there ↦
        let h1 = rw (ok_there, load_schema_by_id) at h in
        let schemas = (world.get_schemas log c n).value in
        find_schema_by_id_lem schemas i n s (found_or_not_lem (find_schema_by_id schemas i n) s h1)
  ]

  pub then_load_lem :
      (latest : LatestId) (s : SrSchema)
      → then_load world log c n latest ≡ loaded s false
      → s.subject ≡ n
  then_load_lem (latest_id i) s h = (load_schema_by_id_lem i s h).1
  then_load_lem (no_latest_id e missing_there) s h = absurd (cc)

  -- A schema that is loaded has the name, and the identifier if that is a number.
  pub load_schema_lem :
      (i : Text) (s : SrSchema)
      → load_schema world log c n i ≡ loaded s false
      → (s.subject ≡ n) × (is_latest_schema i ≡ false → itoa s.id ≡ i)
  unfolding load_schema
  load_schema_lem i s h = elim (Bool-cases (is_latest_schema i)) [
    | inl latest ↦
        let h1 = rw (latest, load_schema) at h in
        (
          then_load_lem (load_id_for_latest_schema world log c n) s h1,
          λ number. absurd (false≢true (sym number ∙ latest)),
        )
    | inr number ↦
        let h1 = rw (number, load_schema) at h in
        let (i_same, n_same) = load_schema_by_id_lem i s h1 in (n_same, λ _. i_same)
  ]

pub after_load_schema_lem :
    (c : SchemaRegistryRestClient) (latest : Bool) (l : LoadedSchema) (d d' : SchemaData)
    → d.is_new_resource ≡ false
    → after_load_schema c latest l d ≡ (none, d')
    → (d'.id ≡ [])
      ⊎ ((s : SrSchema) × (l ≡ loaded s false) × (d' ≡ set_schema_attributes c latest s d))
after_load_schema_lem c latest (loaded s true) d d' old h =
    let h1 = rw old at h in inl (ap (λ r. r.1.id) (sym h1))
after_load_schema_lem c latest (loaded s false) d d' old h = inr (s, refl, ap (λ r. r.1) (sym h))
after_load_schema_lem c latest (not_loaded e true) d d' old h =
    let h1 = rw old at h in inl (ap (λ r. r.1.id) (sym h1))
after_load_schema_lem c latest (not_loaded e false) d d' old h =
    absurd (let first = ap (λ r. r.0) h in cc)
