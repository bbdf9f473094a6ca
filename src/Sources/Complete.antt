-- ===== src/Sources/Complete.antt =====
-- What the loaders of Loads return: the data of all pages, in order.
use terraform_provider_confl.Base.{
  ℕ, zero, suc, ◌≤◌, ◌≡◌, refl, sym, ap, ◌∙◌, Option, none, List, [], ◌∷◌, ◌++◌, String, length,
  Option-cases, inl, inr, ◌⊎◌, arith,
}
use mathlib.Core.List.{append_assoc, append-nil}
use terraform_provider_confl.Sources.Pages.{
  Answers, LoadError, Loaded, all, Step, last, more, fails, panics, next_step, load_pages,
}
use terraform_provider_confl.Sources.Loads.{
  load_certificate_pools, load_endpoints, load_environments, load_flink_artifacts,
  load_compute_pools, load_gateways, load_group_mappings, load_identity_pools,
  load_identity_providers, load_ip_addresses, load_kafka_clusters, load_ksql_clusters,
  load_networks, load_network_link_services, load_peerings, load_private_link_accesses,
  load_provider_integrations, load_schema_registry_clusters, load_service_accounts,
  load_transit_gateway_attachments, load_users,
}

module _ {A : Type 0} (query : String → Option String) (answers : Answers A) where
  -- The data of the pages that the server has from a token on: every page is answered without an
  -- error, and names the next one or is the last one.
  pub data Chain : String → List (List A) → Type 0 where
    last_page :
        (t : String)
        → (answers t).err ≡ none
        → next_step query (answers t).page.next ≡ last
        → Chain t ((answers t).page.data_of ∷ [])
    next_page :
        (t u : String) (pages : List (List A))
        → (answers t).err ≡ none
        → next_step query (answers t).page.next ≡ more u
        → Chain u pages
        → Chain t ((answers t).page.data_of ∷ pages)

abbrev pub concat {ℓ} : {A : Type ℓ} → List (List A) → List A
concat [] = []
concat (xs ∷ xss) = xs ++ concat xss

Step-cases :
    (s : Step)
    → (s ≡ last)
      ⊎ (((u : String) × (s ≡ more u)) ⊎ (((e : LoadError) × (s ≡ fails e)) ⊎ (s ≡ panics)))
Step-cases last = inl refl
Step-cases (more u) = inr (inl (u, refl))
Step-cases (fails e) = inr (inr (inl (e, refl)))
Step-cases panics = inr (inr (inr refl))

all_inj {ℓ} : {A : Type ℓ} → {xs ys : List A} → all xs ≡ all ys → xs ≡ ys
all_inj h = cc

module _ {A : Type 0} (query : String → Option String) (answers : Answers A) where
  pub load_pages-Chain :
      (fuel : ℕ) (t : String) (pages : List (List A)) (items : List A)
      → Chain query answers t pages
      → length pages ≤ fuel
      → load_pages query fuel answers t items ≡ all (items ++ concat pages)
  unfolding load_pages
  load_pages-Chain zero t _ items (last_page _ fine end) enough = absurd (omega arith)
  load_pages-Chain zero t _ items (next_page _ u pages fine step chain) enough =
      absurd (omega arith)
  load_pages-Chain (suc fuel) t _ items (last_page _ fine end) enough =
      rw (fine, end, load_pages)
        (ap (λ xs. all (items ++ xs)) (sym (append-nil ((answers t).page.data_of))))
  load_pages-Chain (suc fuel) t _ items (next_page _ u pages fine step chain) enough =
      rw (fine, step, load_pages)
        (load_pages-Chain fuel u pages (items ++ (answers t).page.data_of) chain (omega arith)
          ∙ ap all (append_assoc items ((answers t).page.data_of) (concat pages)))

  -- The result of the loop is the data of a chain of pages.
  all-Chain :
      (fuel : ℕ) (t : String) (items xs : List A)
      → load_pages query fuel answers t items ≡ all xs
      → (pages : List (List A)) × Chain query answers t pages × (xs ≡ items ++ concat pages)
  unfolding load_pages
  all-Chain zero t items xs h = absurd (cc)
  all-Chain (suc fuel) t items xs h = elim (Option-cases (answers t).err) [
    | inr (e, bad) ↦ absurd (let h1 = rw (bad, load_pages) at h in cc)
    | inl fine ↦
        let h1 = rw (fine, load_pages) at h in
        elim (Step-cases (next_step query (answers t).page.next)) [
          | inl end ↦
              let same = all_inj (rw end at h1) in
              (
                (answers t).page.data_of ∷ [],
                last_page t fine end,
                sym same ∙ ap (λ ys. items ++ ys) (sym (append-nil ((answers t).page.data_of))),
              )
          | inr (inl (u, step)) ↦
              let (pages, chain, same) =
                all-Chain fuel u (items ++ (answers t).page.data_of) xs (rw step at h1) in
              (
                (answers t).page.data_of ∷ pages,
                next_page t u pages fine step chain,
                same ∙ append_assoc items ((answers t).page.data_of) (concat pages),
              )
          | inr (inr (inl (e, bad))) ↦ absurd (let h2 = rw bad at h1 in cc)
          | inr (inr (inr nil)) ↦ absurd (let h2 = rw nil at h1 in cc)
        ]
  ]

-- The loaders whose metadata has a nullable string.
pub data Source : Type 0 where
  certificate_pools endpoints environments flink_artifacts compute_pools gateways group_mappings
        identity_pools identity_providers ip_addresses kafka_clusters ksql_clusters networks
        network_link_services peerings private_link_accesses provider_integrations
        schema_registry_clusters service_accounts transit_gateway_attachments users :
      Source

abbrev pub load_of {ℓ} : Source → {A : Type ℓ} → (String → Option String) → ℕ → Answers A → Loaded A
load_of certificate_pools = load_certificate_pools
load_of endpoints = load_endpoints
load_of environments = load_environments
load_of flink_artifacts = load_flink_artifacts
load_of compute_pools = load_compute_pools
load_of gateways = load_gateways
load_of group_mappings = load_group_mappings
load_of identity_pools = load_identity_pools
load_of identity_providers = load_identity_providers
load_of ip_addresses = load_ip_addresses
load_of kafka_clusters = load_kafka_clusters
load_of ksql_clusters = load_ksql_clusters
load_of networks = load_networks
load_of network_link_services = load_network_link_services
load_of peerings = load_peerings
load_of private_link_accesses = load_private_link_accesses
load_of provider_integrations = load_provider_integrations
load_of schema_registry_clusters = load_schema_registry_clusters
load_of service_accounts = load_service_accounts
load_of transit_gateway_attachments = load_transit_gateway_attachments
load_of users = load_users

load_of_lem :
    {A : Type 0} (source : Source) (query : String → Option String) (fuel : ℕ) (answers : Answers A)
    → load_of source query fuel answers ≡ load_pages query fuel answers "" []
unfolding load_certificate_pools load_endpoints load_environments load_flink_artifacts
    load_compute_pools load_gateways load_group_mappings load_identity_pools load_identity_providers
    load_ip_addresses load_kafka_clusters load_ksql_clusters load_networks
    load_network_link_services load_peerings load_private_link_accesses load_provider_integrations
    load_schema_registry_clusters load_service_accounts load_transit_gateway_attachments load_users
load_of_lem certificate_pools query fuel answers = refl
load_of_lem _ query fuel answers = refl

-- A load ends: if the server has the pages of a chain from the first one on, and there are as many
-- units of fuel as pages, then the loader returns the data of all pages in their order.
pub load-Chain :
    {A : Type 0} (source : Source) (query : String → Option String) (fuel : ℕ) (answers : Answers A)
    (pages : List (List A))
    → Chain query answers "" pages
    → length pages ≤ fuel
    → load_of source query fuel answers ≡ all (concat pages)
load-Chain source query fuel answers pages chain enough =
    load_of_lem source query fuel answers
    ∙ load_pages-Chain query answers fuel "" pages [] chain enough

-- If a loader returns items, then the server has the pages of a chain from the first one on, and the
-- items are the data of all of these pages in their order.
pub load-all :
    {A : Type 0} (source : Source) (query : String → Option String) (fuel : ℕ) (answers : Answers A)
    (items : List A)
    → load_of source query fuel answers ≡ all items
    → (pages : List (List A)) × Chain query answers "" pages × (items ≡ concat pages)
load-all source query fuel answers items h =
    all-Chain query answers fuel "" [] items (sym (load_of_lem source query fuel answers) ∙ h)
