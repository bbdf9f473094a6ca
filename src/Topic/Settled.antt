-- ===== src/Topic/Settled.antt =====
-- How the request of an update changes of a topic's settings.
use terraform_provider_confl.Base.{
  ◌≡◌, sym, ap, ◌∙◌, true, Option, none, some, List, [], ◌∷◌, String, str_eq, eq_iff, Bool-cases,
  Option-cases, inl, inr,
}
use terraform_provider_confl.Topic.Configs.{
  TopicConfigs, config_of, ConfigEdit, put, batch, removed_configs, is_value, updated_configs,
  config_update_batch,
}
use terraform_provider_confl.Topic.Applied.{
  edited, Distinct, batch_inj, edit_first_lem, both_batches_lem, edited-++, put_hit, put_miss,
  config_of_hit, config_of_miss, not_another, removed_keeps, removed_resets,
}

is_value_lem : (v : Option String) (w : String) → is_value v w ≡ true → v ≡ some w
is_value_lem none w h = absurd (cc)
is_value_lem (some u) w h = ap some ((eq_iff u w).0 h)

module _ (old : TopicConfigs) (k : String) where
  updated_keeps :
      (new : TopicConfigs) (es : List ConfigEdit) (v : Option String)
      → config_of k new ≡ none
      → updated_configs old new ≡ batch es
      → edited k es v ≡ v
  unfolding updated_configs
  updated_keeps [] es v gone h = ap (λ xs. edited k xs v) (sym (batch_inj h))
  updated_keeps ((n, w) ∷ new) es v gone h = elim (Bool-cases (str_eq n k)) [
    | inl hit ↦ absurd (let here = config_of_hit k n w new hit in cc)
    | inr miss ↦
        let gone_there = sym (config_of_miss k n w new miss) ∙ gone in
        elim (Bool-cases (is_value (config_of n old) w)) [
          | inl same ↦ updated_keeps new es v gone_there (rw (same, updated_configs) at h)
          | inr other ↦
              let (fs, rest, first, _) =
                edit_first_lem n (put n w) (updated_configs old new) es
                  (rw (other, updated_configs) at h) in
              put_miss k n w es fs v first miss ∙ updated_keeps new fs v gone_there rest
        ]
  ]

  updated_sets :
      (new : TopicConfigs) (es : List ConfigEdit) (x : String)
      → Distinct new
      → config_of k new ≡ some x
      → updated_configs old new ≡ batch es
      → edited k es (config_of k old) ≡ some x
  unfolding updated_configs config_of
  updated_sets [] es x apart here h = absurd (cc)
  updated_sets ((n, w) ∷ new) es x (alone, apart) here h = elim (Bool-cases (str_eq n k)) [
    | inl hit ↦
        let asked = sym (config_of_hit k n w new hit) ∙ here in
        let gone_there = not_another new n k none hit alone in
        elim (Bool-cases (is_value (config_of n old) w)) [
          | inl same ↦
              updated_keeps new es (config_of k old) gone_there (rw (same, updated_configs) at h)
              ∙ not_another old n k (some w) hit (is_value_lem (config_of n old) w same)
              ∙ asked
          | inr other ↦
              let (fs, rest, first, _) =
                edit_first_lem n (put n w) (updated_configs old new) es
                  (rw (other, updated_configs) at h) in
              put_hit k n w es fs (config_of k old) first hit
              ∙ updated_keeps new fs (some w) gone_there rest
              ∙ asked
        ]
    | inr miss ↦
        let here_there = sym (config_of_miss k n w new miss) ∙ here in
        elim (Bool-cases (is_value (config_of n old) w)) [
          | inl same ↦ updated_sets new es x apart here_there (rw (same, updated_configs) at h)
          | inr other ↦
              let (fs, rest, first, _) =
                edit_first_lem n (put n w) (updated_configs old new) es
                  (rw (other, updated_configs) at h) in
              put_miss k n w es fs (config_of k old) first miss
              ∙ updated_sets new fs x apart here_there rest
        ]
  ]

-- When the settings that an update asks for have each name once and the update makes a batch of
-- edits, the edits, made in their order on the old settings, give every setting, of any name, the
-- value that the new settings give it: a setting that is no longer listed is reset.
pub config_update_batch_settles :
    (old_configs new_configs : TopicConfigs) (edits : List ConfigEdit)
    → Distinct new_configs
    → config_update_batch old_configs new_configs ≡ batch edits
    → (name : String) → edited name edits (config_of name old_configs) ≡ config_of name new_configs
unfolding config_update_batch
config_update_batch_settles old new es apart h k =
    let (xs, ys, removed, updated, both) =
      both_batches_lem (removed_configs new old) (updated_configs old new) es h in
    let v = config_of k old in
    ap (λ zs. edited k zs v) both ∙ edited-++ k xs ys v ∙ elim (Option-cases (config_of k new)) [
      | inl gone ↦
          ap (edited k ys) (removed_resets new k old xs gone removed)
          ∙ updated_keeps old k new ys none gone updated
          ∙ sym gone
      | inr (x, here) ↦
          ap (edited k ys) (removed_keeps new k old xs x v here removed)
          ∙ updated_sets old k new ys x apart here updated
          ∙ sym here
    ]
