-- ===== src/Oauth/RestClients.antt =====
-- internal/provider/utils.go: the methods of the REST clients that put a client's credentials into a
-- request's context. Each takes and returns the client; none if it panics.
use terraform_provider_confl.Base.{not, ◌&&◌, Option, none, some, String, str_eq, if◌then◌else◌}
use terraform_provider_confl.Oauth.{OauthToken, ok, error, panicked, World}
use terraform_provider_confl.Oauth.Tokens.{fetch_external_oauth_token}
use terraform_provider_confl.Oauth.Packages.{
  Package, access_token, basic_auth, token, user, Context, with_value, kafkarestv3,
  schemaregistryv1, datacatalogv1, flinkgatewayv1, tableflowv1,
}

-- The fields that the five REST clients with OAuth have in common, and Tableflow's client.
pub record RestClient : Type 0 where
  pub external_access_token : Option OauthToken
  pub api_key : String
  pub api_secret : String

abbrev pub Method : Type 0
Method = World → RestClient → Context → Option (Context × RestClient)

abbrev pub with_api_key : Package → RestClient → Context → Context
unfolding with_value
with_api_key owner c ctx =
    if not (str_eq c.api_key "") && not (str_eq c.api_secret "")
    then with_value ctx owner basic_auth (user c.api_key c.api_secret)
    else ctx

-- `c.externalAccessToken = token`, then `c.externalAccessToken.AccessToken`.
unfoldable pub with_token :
    Package → RestClient → Context → Option OauthToken → Option (Context × RestClient)
unfolding with_value
with_token owner c ctx none = none
with_token owner c ctx (some t) = some (
  with_value ctx owner access_token (token t.access_token),
  record { external_access_token = some t; api_key = c.api_key; api_secret = c.api_secret },
)

-- The error of a failed fetch is only logged, and the token is nil then.
unfoldable pub rest_api_context : Package → Method
unfolding fetch_external_oauth_token with_token with_value
rest_api_context owner world c ctx = elim c.external_access_token [
  | none ↦ some (with_api_key owner c ctx, c)
  | some curr ↦
      elim (fetch_external_oauth_token world curr.token_url curr.client_id curr.client_secret
        curr.scope curr.identity_pool_id (some curr) curr.http_client) [
          | ok fetched ↦ with_token owner c ctx fetched
          | error e ↦ with_token owner c ctx none
          | panicked ↦ none
        ]
]

unfoldable pub kafka_rest_client_api_context : Method
unfolding rest_api_context
kafka_rest_client_api_context = rest_api_context kafkarestv3

unfoldable pub schema_registry_rest_client_api_context : Method
unfolding rest_api_context
schema_registry_rest_client_api_context = rest_api_context schemaregistryv1

unfoldable pub schema_registry_rest_client_data_catalog_v1_api_context : Method
unfolding rest_api_context
schema_registry_rest_client_data_catalog_v1_api_context = rest_api_context datacatalogv1

unfoldable pub catalog_rest_client_data_catalog_v1_api_context : Method
unfolding rest_api_context
catalog_rest_client_data_catalog_v1_api_context = rest_api_context datacatalogv1

unfoldable pub flink_rest_client_api_context : Method
unfolding rest_api_context
flink_rest_client_api_context = rest_api_context flinkgatewayv1

-- Tableflow's client does not use its tokens here.
unfoldable pub tableflow_rest_client_api_context : Method
unfolding with_value
tableflow_rest_client_api_context world c ctx = some (with_api_key tableflowv1 c ctx, c)
