-- ===== src/ClusterLink/Undrifted.antt =====
-- What a read of a link leaves of its blocks.
use terraform_provider_confl.Base.{◌≡◌, refl, sym, ap, Bool, false, Option, none, some}
use terraform_provider_confl.Kafka.{Text}
use terraform_provider_confl.ClusterLink.Links.{
  LinkMode, bidirectional, destination, source, ConnectionMode, inbound, outbound, ClusterBlock,
  LinkData, key_in, secret_in, has_some,
  validate_cluster_link_input_by_link_mode_and_connection_mode, validate_cluster_link_input,
}
use terraform_provider_confl.ClusterLink.Request.{create_kafka_rest_client_for_cluster_link}
use terraform_provider_confl.ClusterLink.Complete.{KeysSet, refuse_if_lem}
use terraform_provider_confl.ClusterLink.Reads.{
  LinkState, LinkLog, LinkApi, build_optional_credential_block, set_again, set_without,
  set_cluster_blocks, set_cluster_link_attributes, read_cluster_link_and_set_attributes,
  cluster_link_read,
}

build_optional_credential_block-same :
    (c : Option (Text × Text))
    → KeysSet c
    → build_optional_credential_block (key_in c) (secret_in c) ≡ c
unfolding build_optional_credential_block
build_optional_credential_block-same none keys = refl
build_optional_credential_block-same (some (k, s)) (first, second) = rw (first) refl

set_again-same : (b : ClusterBlock) → KeysSet b.credentials → set_again b ≡ b
set_again-same b keys =
    ap (λ c. record b { credentials = c }) (build_optional_credential_block-same b.credentials keys)

no_credentials : (c : Option (Text × Text)) → has_some c ≡ false → c ≡ none
no_credentials none h = refl
no_credentials (some c) h = absurd (cc)

set_without-same : (b : ClusterBlock) → has_some b.credentials ≡ false → set_without b ≡ b
set_without-same b h = ap (λ c. record b { credentials = c }) (sym (no_credentials b.credentials h))

-- A bidirectional inbound link has no credentials of its remote cluster, which the check does not ask for.
abbrev pub RemoteLogin : LinkMode → ConnectionMode → Option (Text × Text) → Type 0
RemoteLogin bidirectional inbound c = has_some c ≡ false
RemoteLogin _ _ c = Unit

abbrev pub SameBlocks : LinkData → LinkData → Type 0
SameBlocks a b =
    (a.source_cluster ≡ b.source_cluster)
    × (a.destination_cluster ≡ b.destination_cluster)
    × (a.local_cluster ≡ b.local_cluster)
    × (a.remote_cluster ≡ b.remote_cluster)

module _ (d : LinkData) (oauth : Bool) (keys_source : KeysSet d.source_cluster.credentials)
    (keys_destination : KeysSet d.destination_cluster.credentials)
    (keys_local : KeysSet d.local_cluster.credentials)
    (keys_remote : KeysSet d.remote_cluster.credentials) where
  set_cluster_blocks-SameBlocks :
      (m : LinkMode) (cm : ConnectionMode)
      → RemoteLogin m cm d.remote_cluster.credentials
      → validate_cluster_link_input_by_link_mode_and_connection_mode d m cm oauth ≡ none
      → SameBlocks (set_cluster_blocks m cm d) d
  unfolding set_cluster_blocks validate_cluster_link_input_by_link_mode_and_connection_mode
  set_cluster_blocks-SameBlocks bidirectional inbound remote h = (
    refl,
    refl,
    set_again-same d.local_cluster keys_local,
    set_without-same d.remote_cluster remote,
  )
  set_cluster_blocks-SameBlocks bidirectional outbound remote h = (
    refl,
    refl,
    set_again-same d.local_cluster keys_local,
    set_again-same d.remote_cluster keys_remote,
  )
  set_cluster_blocks-SameBlocks destination inbound remote h =
      let (_, h1) = refuse_if_lem _ _ _ h in
      let (_, h2) = refuse_if_lem _ _ _ h1 in
      let (_, h3) = refuse_if_lem _ _ _ h2 in
      let (bare, _) = refuse_if_lem _ _ _ h3 in
      (
        set_without-same d.source_cluster bare,
        set_again-same d.destination_cluster keys_destination,
        refl,
        refl,
      )
  set_cluster_blocks-SameBlocks destination outbound remote h = (
    set_again-same d.source_cluster keys_source,
    set_again-same d.destination_cluster keys_destination,
    refl,
    refl,
  )
  set_cluster_blocks-SameBlocks source cm remote h = (
    set_again-same d.source_cluster keys_source,
    set_again-same d.destination_cluster keys_destination,
    refl,
    refl,
  )

-- When a link has passed the check, credentials that are given have a key and a secret, a bidirectional
-- inbound link has none of its remote cluster, and the calls of the read succeed, then the read ends
-- without an error and leaves the four blocks of clusters as they are.
pub cluster_link_read-SameBlocks :
    (world : LinkApi) (log : LinkLog) (d : LinkState) (oauth : Bool)
    → KeysSet d.link.source_cluster.credentials
    → KeysSet d.link.destination_cluster.credentials
    → KeysSet d.link.local_cluster.credentials
    → KeysSet d.link.remote_cluster.credentials
    → RemoteLogin d.link.link_mode d.link.connection_mode d.link.remote_cluster.credentials
    → validate_cluster_link_input d.link oauth ≡ none
    → (world.get log (create_kafka_rest_client_for_cluster_link d.link) d.link_name).err ≡ none
    → (world.list_configs log
        (create_kafka_rest_client_for_cluster_link d.link)
        (world.get log
          (create_kafka_rest_client_for_cluster_link d.link)
          d.link_name).value.link_name).err
      ≡ none
    → ((cluster_link_read world log d).0 ≡ none)
      × SameBlocks (cluster_link_read world log d).2.link d.link
unfolding cluster_link_read read_cluster_link_and_set_attributes set_cluster_link_attributes
    validate_cluster_link_input
cluster_link_read-SameBlocks world log d oauth s t l r remote passed there listed =
    let same =
      set_cluster_blocks-SameBlocks d.link oauth s t l r d.link.link_mode d.link.connection_mode
        remote passed in
    rw
      (
        there, listed, cluster_link_read, read_cluster_link_and_set_attributes,
        set_cluster_link_attributes,
      )
      (refl, same)
