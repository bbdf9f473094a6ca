-- ===== src/Kafka/AclState.antt =====
-- What the handlers of an ACL leave of its data.
use terraform_provider_confl.Base.{
  ◌≡◌, refl, sym, Bool, true, false, not, ◌&&◌, Option, none, some, List, [], ◌∷◌, Bool-cases,
  Option-cases, inl, inr, ◌⊎◌,
}
use mathlib.Core.Path.{subst}
use terraform_provider_confl.Http.{status_not_found, response_has_expected_status_code}
use terraform_provider_confl.Http.Descriptive.{ApiError}
use terraform_provider_confl.Wait.{Call}
use terraform_provider_confl.Kafka.Settings.{Provider, Environment}
use terraform_provider_confl.Kafka.Acl.{Acl}
use terraform_provider_confl.Kafka.AclHandlers.{
  Data, KafkaRestClient, AclApi, HandlerError, api, Handled, no_acls_matched, multiple_acls_matched,
  set_id, set_attributes, matched, read_acl_and_set_attributes,
}

abbrev noted : Option HandlerError → Data → Handled
noted e d = (e, d)

pub both_true : (a b : Bool) → (a && b) ≡ true → (a ≡ true) × (b ≡ true)
both_true true true h = (refl, refl)
both_true true false h = absurd (cc)
both_true false b h = absurd (cc)

not-true : (b : Bool) → not b ≡ true → b ≡ false
not-true true h = absurd (cc)
not-true false h = refl

module _ (world : AclApi) (env : Environment) (client : Provider) where
  -- The server says that there is no such ACL.
  abbrev pub Absent : Call (List Acl) → Type 0
  Absent call =
      ((call.err ≡ none) × (call.value ≡ []))
      ⊎ ((e : ApiError) × (call.err ≡ some e)
          × (response_has_expected_status_code call.resp status_not_found ≡ true))

  -- What a read that ends in `e` leaves of `d`.
  abbrev pub ReadLeaves : KafkaRestClient → Acl → Data → Option HandlerError → Data → Type 0
  ReadLeaves c acl d e left =
      ((x : HandlerError) × (e ≡ some x) × (left ≡ d))
      ⊎ (((m : Acl) × (e ≡ none)
            × ((world.read c acl).value ≡ m ∷ [])
            × (left ≡ set_attributes world env client c acl m d))
          ⊎ ((e ≡ none)
              × (left ≡ set_id [] d)
              × (d.is_new_resource ≡ false)
              × Absent (world.read c acl)))

  abbrev pub Leaves : KafkaRestClient → Acl → Data → Handled → Type 0
  Leaves c acl d r = ReadLeaves c acl d r.0 r.1

  matched-Leaves :
      (c : KafkaRestClient) (acl : Acl) (d : Data) (acls : List Acl)
      → (world.read c acl).err ≡ none
      → (world.read c acl).value ≡ acls
      → Leaves c acl d (matched world env client c acl d acls)
  unfolding matched
  matched-Leaves c acl d [] fine answered = elim (Bool-cases d.is_new_resource) [
    | inl new ↦
        let same : matched world env client c acl d [] ≡ noted (some no_acls_matched) d =
          rw (new, matched) refl in
        subst (Leaves c acl d) (sym same) (inl (no_acls_matched, refl, refl))
    | inr old ↦
        let same : matched world env client c acl d [] ≡ noted none (set_id [] d) =
          rw (old, matched) refl in
        subst (Leaves c acl d) (sym same) (inr (inr (refl, refl, old, inl (fine, answered))))
  ]
  matched-Leaves c acl d (m ∷ []) fine answered = inr (inl (m, refl, answered, refl))
  matched-Leaves c acl d (_ ∷ _ ∷ _) fine answered = inl (multiple_acls_matched, refl, refl)

  -- A read of an ACL, in every case: after an error the data are as they were; without one either
  -- exactly one ACL matched and its attributes are set, or the server says that there is none, the
  -- resource is not new, and its identifier is cleared, which removes it from the state.
  pub read_acl_and_set_attributes-Leaves :
      (c : KafkaRestClient) (acl : Acl) (d : Data)
      → Leaves c acl d (read_acl_and_set_attributes world env client c acl d)
  unfolding read_acl_and_set_attributes
  read_acl_and_set_attributes-Leaves c acl d = elim (Option-cases (world.read c acl).err) [
    | inl fine ↦
        let same : read_acl_and_set_attributes world env client c acl d
            ≡ matched world env client c acl d (world.read c acl).value =
          rw (fine, read_acl_and_set_attributes) refl in
        subst (Leaves c acl d) (sym same) (matched-Leaves c acl d _ fine refl)
    | inr (e, bad) ↦
        elim (Bool-cases (
          response_has_expected_status_code (world.read c acl).resp status_not_found
          && not d.is_new_resource)) [
            | inl gone ↦
                let same : read_acl_and_set_attributes world env client c acl d
                    ≡ noted none (set_id [] d) =
                  rw (bad, gone, read_acl_and_set_attributes) refl in
                let (absent, old) = both_true _ _ gone in
                subst (Leaves c acl d) (sym same)
                  (inr (inr (refl, refl, not-true _ old, inr (e, bad, absent))))
            | inr other ↦
                let same : read_acl_and_set_attributes world env client c acl d
                    ≡ noted (some (api e)) d =
                  rw (bad, other, read_acl_and_set_attributes) refl in
                subst (Leaves c acl d) (sym same) (inl (api e, refl, refl))
          ]
  ]
