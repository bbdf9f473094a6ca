-- ===== src/ClusterLink/Complete.antt =====
-- What is there in the request of a link that passes the check.
use terraform_provider_confl.Base.{
  ◌≡◌, refl, Bool, true, false, not, Option, none, some, List, [], ◌∷◌, ◌++◌, String, str_eq,
  if◌then◌else◌, All,
}
use terraform_provider_confl.Kafka.{Text}
use terraform_provider_confl.Kafka.Settings.{is_set}
use terraform_provider_confl.Kafka.AclHandlers.{KafkaRestClient}
use terraform_provider_confl.ClusterLink.Links.{
  LinkMode, bidirectional, destination, source, ConnectionMode, inbound, outbound, LinkData,
  LinkError, refuse_if, key_in, secret_in, has_some,
  validate_cluster_link_input_by_link_mode_and_connection_mode, validate_cluster_link_input,
}
use terraform_provider_confl.ClusterLink.Request.{
  Configs, plain_login, construct_cloud_config, construct_cluster_link_request, own_cluster,
  link_rest_client, create_kafka_rest_client_for_cluster_link,
}

-- Credentials, if there are any, have a key and a secret.
abbrev pub KeysSet : Option (Text × Text) → Type 0
KeysSet none = Unit
KeysSet (some c) = (is_set c.0 ≡ true) × (is_set c.1 ≡ true)

abbrev pub value_of : String → Configs → Option Text
value_of name [] = none
value_of name ((n, v) ∷ configs) =
    let rest = value_of name configs in if str_eq n name then some v else rest

-- A login with a key and a secret.
abbrev pub Login : Option Text → Type 0
Login found =
    (key secret : Text) × (found ≡ some (plain_login key secret))
    × (is_set key ≡ true)
    × (is_set secret ≡ true)

-- The logins of a link, but for the one to the remote cluster of a bidirectional link.
abbrev pub checked_logins : LinkMode → ConnectionMode → List String
checked_logins bidirectional outbound = "local.sasl.jaas.config" ∷ []
checked_logins destination outbound = "sasl.jaas.config" ∷ []
checked_logins source outbound = "local.sasl.jaas.config" ∷ "sasl.jaas.config" ∷ []
checked_logins _ inbound = []

abbrev pub Reaches : KafkaRestClient → Type 0
Reaches c =
    (is_set c.rest_endpoint ≡ true)
    × (is_set c.cluster_api_key ≡ true)
    × (is_set c.cluster_api_secret ≡ true)

-- What a request has for its own cluster and in its settings.
abbrev pub Complete : LinkMode → ConnectionMode → KafkaRestClient → Configs → Type 0
Complete m cm c configs =
    Reaches c
    × ((servers : Text) × (value_of "bootstrap.servers" configs ≡ some servers)
        × (is_set servers ≡ true))
    × All (λ name. Login (value_of name configs)) (checked_logins m cm)

pub refuse_if_lem :
    (b : Bool) (e : LinkError) (rest : Option LinkError)
    → refuse_if b e rest ≡ none
    → (b ≡ false) × (rest ≡ none)
unfolding refuse_if
refuse_if_lem true e rest h = absurd (cc)
refuse_if_lem false e rest h = (refl, h)

unnegated : (b : Bool) → not b ≡ false → b ≡ true
unnegated true h = refl
unnegated false h = absurd (cc)

has_some_lem :
    (c : Option (Text × Text))
    → KeysSet c
    → not (has_some c) ≡ false
    → (is_set (key_in c) ≡ true) × (is_set (secret_in c) ≡ true)
has_some_lem none keys h = absurd (cc)
has_some_lem (some c) keys h = keys

login :
    (c : Option (Text × Text))
    → KeysSet c
    → not (has_some c) ≡ false
    → Login (some (plain_login (key_in c) (secret_in c)))
login c keys h =
    let (first, second) = has_some_lem c keys h in (key_in c, secret_in c, refl, first, second)

reaches : {A B C : Type 0} → A → B × C → A × B × C
reaches a keys = (a, keys.0, keys.1)

by_modes :
    (d : LinkData) (m : LinkMode) (cm : ConnectionMode)
    → KeysSet d.source_cluster.credentials
    → KeysSet d.destination_cluster.credentials
    → KeysSet d.local_cluster.credentials
    → validate_cluster_link_input_by_link_mode_and_connection_mode d m cm false ≡ none
    → Complete m cm
        (link_rest_client (own_cluster d m))
        (construct_cloud_config none d m cm ++ d.configs)
unfolding validate_cluster_link_input_by_link_mode_and_connection_mode construct_cloud_config
by_modes d bidirectional inbound s t l h =
    let (a, h1) = refuse_if_lem _ _ _ h in
    let (b, h2) = refuse_if_lem _ _ _ h1 in
    let (c, _) = refuse_if_lem _ _ _ h2 in
    (
      reaches (unnegated _ c) (has_some_lem _ l a),
      (d.remote_cluster.bootstrap_endpoint, refl, unnegated _ b),
      tt,
    )
by_modes d bidirectional outbound s t l h =
    let (a, h1) = refuse_if_lem _ _ _ h in
    let (b, h2) = refuse_if_lem _ _ _ h1 in
    let (c, _) = refuse_if_lem _ _ _ h2 in
    (
      reaches (unnegated _ c) (has_some_lem _ l a),
      (d.remote_cluster.bootstrap_endpoint, refl, unnegated _ b),
      (login _ l a, tt),
    )
by_modes d destination inbound s t l h =
    let (a, h1) = refuse_if_lem _ _ _ h in
    let (b, h2) = refuse_if_lem _ _ _ h1 in
    let (c, _) = refuse_if_lem _ _ _ h2 in
    (
      reaches (unnegated _ c) (has_some_lem _ t a),
      (d.source_cluster.bootstrap_endpoint, refl, unnegated _ b),
      tt,
    )
by_modes d destination outbound s t l h =
    let (a, h1) = refuse_if_lem _ _ _ h in
    let (b, h2) = refuse_if_lem _ _ _ h1 in
    let (c, h3) = refuse_if_lem _ _ _ h2 in
    let (e, _) = refuse_if_lem _ _ _ h3 in
    (
      reaches (unnegated _ c) (has_some_lem _ t a),
      (d.source_cluster.bootstrap_endpoint, refl, unnegated _ b),
      (login _ s e, tt),
    )
by_modes d source inbound s t l h = absurd (let (_, h1) = refuse_if_lem _ _ _ h in cc)
by_modes d source outbound s t l h =
    let (a, h1) = refuse_if_lem _ _ _ h in
    let (b, h2) = refuse_if_lem _ _ _ h1 in
    let (c, h3) = refuse_if_lem _ _ _ h2 in
    let (e, _) = refuse_if_lem _ _ _ h3 in
    (
      reaches (unnegated _ b) (has_some_lem _ s e),
      (d.destination_cluster.bootstrap_endpoint, refl, unnegated _ c),
      (login _ s e, (login _ t a, tt)),
    )

-- When a link passes the check without OAuth, and credentials that are given have a key and a secret, then
-- the cluster that the request is sent to has a REST endpoint, a key and a secret; the request names
-- bootstrap servers; and an outbound link's request has logins with a key and a secret to each of its
-- clusters, but for the remote cluster of a bidirectional link.
pub construct_cluster_link_request-Complete :
    (d : LinkData)
    → KeysSet d.source_cluster.credentials
    → KeysSet d.destination_cluster.credentials
    → KeysSet d.local_cluster.credentials
    → validate_cluster_link_input d false ≡ none
    → Complete d.link_mode d.connection_mode
        (create_kafka_rest_client_for_cluster_link d)
        (construct_cluster_link_request none d).configs
unfolding validate_cluster_link_input construct_cluster_link_request
    create_kafka_rest_client_for_cluster_link
construct_cluster_link_request-Complete d s t l h = by_modes d d.link_mode d.connection_mode s t l h
