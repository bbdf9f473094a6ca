-- ===== src/Topic/Applied.antt =====
-- What a batch of Configs does to the settings of a topic.
use terraform_provider_confl.Base.{
  ◌≡◌, refl, sym, ap, ◌∙◌, true, false, Option, none, some, List, [], ◌∷◌, ◌++◌, String, str_eq,
  eq_iff, one_of, if◌then◌else◌, Bool-cases, Option-cases, inl, inr,
}
use mathlib.Core.Path.{subst}
use terraform_provider_confl.Topic.Configs.{
  TopicConfigs, config_of, editable_topic_settings, ConfigEdit, reset, put, ConfigBatch, batch,
  read_only, edit_first, removed_configs, both_batches,
}

-- The value of a setting after edits, from the one before them.
abbrev pub edited : String → List ConfigEdit → Option String → Option String
edited k [] v = v
edited k (reset name ∷ edits) v = edited k edits (if str_eq name k then none else v)
edited k (put name value ∷ edits) v = edited k edits (if str_eq name k then some value else v)

-- Each name stands once, as in a map.
abbrev pub Distinct : TopicConfigs → Type 0
Distinct [] = Unit
Distinct ((name, value) ∷ configs) = (config_of name configs ≡ none) × Distinct configs

pub batch_inj : {es fs : List ConfigEdit} → batch es ≡ batch fs → es ≡ fs
batch_inj h = cc

pub some_inj {ℓ} : {A : Type ℓ} → {a b : A} → some a ≡ some b → a ≡ b
some_inj h = cc

pub edit_first_lem :
    (name : String) (e : ConfigEdit) (b : ConfigBatch) (es : List ConfigEdit)
    → edit_first name e b ≡ batch es
    → (fs : List ConfigEdit) × (b ≡ batch fs)
      × (es ≡ e ∷ fs)
      × (one_of name editable_topic_settings ≡ true)
edit_first_lem name e (batch fs) es h = elim (Bool-cases (one_of name editable_topic_settings)) [
  | inl ok ↦ (fs, refl, sym (batch_inj (rw ok at h)), ok)
  | inr bad ↦ absurd (let h1 = rw bad at h in cc)
]
edit_first_lem name e (read_only other) es h =
    elim (Bool-cases (one_of name editable_topic_settings)) [
      | inl ok ↦ absurd (let h1 = rw ok at h in cc)
      | inr bad ↦ absurd (let h1 = rw bad at h in cc)
    ]

pub both_batches_lem :
    (a b : ConfigBatch) (es : List ConfigEdit)
    → both_batches a b ≡ batch es
    → (xs ys : List ConfigEdit) × (a ≡ batch xs) × (b ≡ batch ys) × (es ≡ xs ++ ys)
both_batches_lem (read_only n) b es h = absurd (cc)
both_batches_lem (batch xs) (read_only n) es h = absurd (cc)
both_batches_lem (batch xs) (batch ys) es h = (xs, ys, refl, refl, sym (batch_inj h))

pub edited-++ :
    (k : String) (xs ys : List ConfigEdit) (v : Option String)
    → edited k (xs ++ ys) v ≡ edited k ys (edited k xs v)
edited-++ k [] ys v = refl
edited-++ k (reset n ∷ xs) ys v = edited-++ k xs ys (if str_eq n k then none else v)
edited-++ k (put n w ∷ xs) ys v = edited-++ k xs ys (if str_eq n k then some w else v)

name_eq : (n k : String) → str_eq n k ≡ true → n ≡ k
name_eq n k h = (eq_iff n k).0 h

reset_hit :
    (k n : String) (es fs : List ConfigEdit) (v : Option String)
    → es ≡ reset n ∷ fs
    → str_eq n k ≡ true
    → edited k es v ≡ edited k fs none
reset_hit k n es fs v same hit =
    ap (λ xs. edited k xs v) same ∙ ap (λ b. edited k fs (if b then none else v)) hit

reset_miss :
    (k n : String) (es fs : List ConfigEdit) (v : Option String)
    → es ≡ reset n ∷ fs
    → str_eq n k ≡ false
    → edited k es v ≡ edited k fs v
reset_miss k n es fs v same miss =
    ap (λ xs. edited k xs v) same ∙ ap (λ b. edited k fs (if b then none else v)) miss

pub put_hit :
    (k n w : String) (es fs : List ConfigEdit) (v : Option String)
    → es ≡ put n w ∷ fs
    → str_eq n k ≡ true
    → edited k es v ≡ edited k fs (some w)
put_hit k n w es fs v same hit =
    ap (λ xs. edited k xs v) same ∙ ap (λ b. edited k fs (if b then some w else v)) hit

pub put_miss :
    (k n w : String) (es fs : List ConfigEdit) (v : Option String)
    → es ≡ put n w ∷ fs
    → str_eq n k ≡ false
    → edited k es v ≡ edited k fs v
put_miss k n w es fs v same miss =
    ap (λ xs. edited k xs v) same ∙ ap (λ b. edited k fs (if b then some w else v)) miss

pub config_of_hit :
    (k n w : String) (configs : TopicConfigs)
    → str_eq n k ≡ true
    → config_of k ((n, w) ∷ configs) ≡ some w
unfolding config_of
config_of_hit k n w configs hit = ap (λ b. if b then some w else config_of k configs) hit

pub config_of_miss :
    (k n w : String) (configs : TopicConfigs)
    → str_eq n k ≡ false
    → config_of k ((n, w) ∷ configs) ≡ config_of k configs
unfolding config_of
config_of_miss k n w configs miss = ap (λ b. if b then some w else config_of k configs) miss

-- The first setting decides its own name.
pub not_another :
    (configs : TopicConfigs) (n k : String) (u : Option String)
    → str_eq n k ≡ true
    → config_of n configs ≡ u
    → config_of k configs ≡ u
not_another configs n k u hit h = subst (λ m. config_of m configs ≡ u) (name_eq n k hit) h

module _ (new : TopicConfigs) (k : String) where
  -- A setting that is kept is not reset.
  pub removed_keeps :
      (old : TopicConfigs) (es : List ConfigEdit) (w : String) (v : Option String)
      → config_of k new ≡ some w
      → removed_configs new old ≡ batch es
      → edited k es v ≡ v
  unfolding removed_configs
  removed_keeps [] es w v kept h = ap (λ xs. edited k xs v) (sym (batch_inj h))
  removed_keeps ((n, u) ∷ old) es w v kept h = elim (Option-cases (config_of n new)) [
    | inr (x, there) ↦ removed_keeps old es w v kept (rw (there, removed_configs) at h)
    | inl gone ↦
        let (fs, rest, same, _) =
          edit_first_lem n (reset n) (removed_configs new old) es
            (rw (gone, removed_configs) at h) in
        elim (Bool-cases (str_eq n k)) [
          | inl hit ↦ absurd (let here = not_another new n k none hit gone in cc)
          | inr miss ↦ reset_miss k n es fs v same miss ∙ removed_keeps old fs w v kept rest
        ]
  ]

  removed_stays :
      (old : TopicConfigs) (es : List ConfigEdit)
      → removed_configs new old ≡ batch es
      → edited k es none ≡ none
  unfolding removed_configs
  removed_stays [] es h = ap (λ xs. edited k xs none) (sym (batch_inj h))
  removed_stays ((n, u) ∷ old) es h = elim (Option-cases (config_of n new)) [
    | inr (x, there) ↦ removed_stays old es (rw (there, removed_configs) at h)
    | inl gone ↦
        let (fs, rest, same, _) =
          edit_first_lem n (reset n) (removed_configs new old) es
            (rw (gone, removed_configs) at h) in
        elim (Bool-cases (str_eq n k)) [
          | inl hit ↦ reset_hit k n es fs none same hit ∙ removed_stays old fs rest
          | inr miss ↦ reset_miss k n es fs none same miss ∙ removed_stays old fs rest
        ]
  ]

  -- A setting that is removed is reset.
  pub removed_resets :
      (old : TopicConfigs) (es : List ConfigEdit)
      → config_of k new ≡ none
      → removed_configs new old ≡ batch es
      → edited k es (config_of k old) ≡ none
  unfolding removed_configs config_of
  removed_resets [] es absent_there h = ap (λ xs. edited k xs none) (sym (batch_inj h))
  removed_resets ((n, u) ∷ old) es absent_there h = elim (Option-cases (config_of n new)) [
    | inr (x, there) ↦ elim (Bool-cases (str_eq n k)) [
      | inl hit ↦ absurd (let here = not_another new n k (some x) hit there in cc)
      | inr miss ↦
          ap (edited k es) (config_of_miss k n u old miss)
          ∙ removed_resets old es absent_there (rw (there, removed_configs) at h)
    ]
    | inl gone ↦
        let (fs, rest, same, _) =
          edit_first_lem n (reset n) (removed_configs new old) es
            (rw (gone, removed_configs) at h) in
        elim (Bool-cases (str_eq n k)) [
          | inl hit ↦
              reset_hit k n es fs (config_of k ((n, u) ∷ old)) same hit ∙ removed_stays old fs rest
          | inr miss ↦
              ap (edited k es) (config_of_miss k n u old miss)
              ∙ reset_miss k n es fs (config_of k old) same miss
              ∙ removed_resets old fs absent_there rest
        ]
  ]
