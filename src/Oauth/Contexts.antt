-- ===== src/Oauth/Contexts.antt =====
-- internal/provider/utils.go: the methods of `Client` that put its credentials into a request's
-- context. Each takes and returns the client, whose tokens it may renew; none if it panics.
use terraform_provider_confl.Base.{
  [], Bool, not, ◌&&◌, Option, none, some, String, str_eq, if◌then◌else◌,
}
use terraform_provider_confl.Oauth.{World}
use terraform_provider_confl.Oauth.Session.{
  Session, fetch_or_override_sts_oauth_token_from_api_context,
}
use terraform_provider_confl.Oauth.Packages.{
  Package, access_token, basic_auth, token, user, Context, with_value, apikeysv2, byokv1,
  connectcustompluginv1, ccpmv1, cmkv2, iamv2, iamipfilteringv2, certificateauthorityv2, ssov2,
  providerintegrationv1, providerintegrationv2, iamv1, mdsv2, networkingv1, flinkartifactv1,
  flinkv2, networkingaccesspointv1, networkinggatewayv1, networkingipv1, networkingprivatelinkv1,
  networkingdnsforwarderv1, endpointv1, srcmv3, connectv1, orgv2, ksqlv2, identityproviderv2,
  kafkaquotasv1, rtcev1, camv1,
}

pub record Client : Type 0 where
  pub session : Session
  pub cloud_api_key : String
  pub cloud_api_secret : String

abbrev pub Method : Type 0
Method = World → Client → Context → Option (Context × Client)

-- `c.cloudApiKey != "" && c.cloudApiSecret != ""`
abbrev pub has_cloud_api_key : Client → Bool
has_cloud_api_key c = not (str_eq c.cloud_api_key "") && not (str_eq c.cloud_api_secret "")

abbrev pub with_cloud_api_key : Package → Client → Context → Context
unfolding with_value
with_cloud_api_key owner c ctx =
    if has_cloud_api_key c
    then with_value ctx owner basic_auth (user c.cloud_api_key c.cloud_api_secret)
    else ctx

-- The access token of the session that a renewal leaves; its error is only logged.
unfoldable pub authorized : Package → Client → Context → Session → Option (Context × Client)
unfolding with_value
authorized owner c ctx session = elim session.sts_token [
  | none ↦ none
  | some sts ↦ some (
    with_value ctx owner access_token (token sts.access_token),
    record {
      session = session;
      cloud_api_key = c.cloud_api_key;
      cloud_api_secret = c.cloud_api_secret;
    },
  )
]

-- The body of every method, with the package of each of the two keys.
unfoldable pub api_context : (token_package user_package : Package) → Method
unfolding fetch_or_override_sts_oauth_token_from_api_context authorized with_value
api_context token_package user_package world c ctx = elim c.session.oauth_token [
  | none ↦ some (with_cloud_api_key user_package c ctx, c)
  | some _ ↦ elim c.session.sts_token [
    | none ↦ some (with_cloud_api_key user_package c ctx, c)
    | some _ ↦ elim (fetch_or_override_sts_oauth_token_from_api_context world c.session) [
      | none ↦ none
      | some step ↦ authorized token_package c ctx step.1
    ]
  ]
]

unfoldable pub api_keys_v2_api_context : Method
unfolding api_context
api_keys_v2_api_context = api_context apikeysv2 apikeysv2

unfoldable pub byok_v1_api_context : Method
unfolding api_context
byok_v1_api_context = api_context byokv1 byokv1

unfoldable pub connect_custom_plugin_v1_api_context : Method
unfolding api_context
connect_custom_plugin_v1_api_context = api_context connectcustompluginv1 connectcustompluginv1

unfoldable pub ccpm_v1_api_context : Method
unfolding api_context
ccpm_v1_api_context = api_context connectcustompluginv1 ccpmv1

unfoldable pub cmk_v2_api_context : Method
unfolding api_context
cmk_v2_api_context = api_context cmkv2 cmkv2

unfoldable pub iam_v2_api_context : Method
unfolding api_context
iam_v2_api_context = api_context iamv2 iamv2

unfoldable pub iam_ip_filtering_v2_api_context : Method
unfolding api_context
iam_ip_filtering_v2_api_context = api_context iamipfilteringv2 iamipfilteringv2

unfoldable pub certificate_authority_v2_api_context : Method
unfolding api_context
certificate_authority_v2_api_context = api_context certificateauthorityv2 certificateauthorityv2

unfoldable pub sso_v2_api_context : Method
unfolding api_context
sso_v2_api_context = api_context ssov2 ssov2

unfoldable pub provider_integration_v1_api_context : Method
unfolding api_context
provider_integration_v1_api_context = api_context providerintegrationv1 providerintegrationv1

unfoldable pub provider_integration_v2_api_context : Method
unfolding api_context
provider_integration_v2_api_context = api_context providerintegrationv2 providerintegrationv2

unfoldable pub iam_v1_api_context : Method
unfolding api_context
iam_v1_api_context = api_context iamv1 iamv1

unfoldable pub mds_v2_api_context : Method
unfolding api_context
mds_v2_api_context = api_context mdsv2 mdsv2

unfoldable pub networking_v1_api_context : Method
unfolding api_context
networking_v1_api_context = api_context networkingv1 networkingv1

unfoldable pub flink_artifact_v1_api_context : Method
unfolding api_context
flink_artifact_v1_api_context = api_context flinkartifactv1 flinkartifactv1

unfoldable pub flink_v2_api_context : Method
unfolding api_context
flink_v2_api_context = api_context flinkv2 flinkv2

unfoldable pub networking_access_point_v1_api_context : Method
unfolding api_context
networking_access_point_v1_api_context = api_context networkingaccesspointv1 networkingaccesspointv1

unfoldable pub networking_gateway_v1_api_context : Method
unfolding api_context
networking_gateway_v1_api_context = api_context networkinggatewayv1 networkinggatewayv1

unfoldable pub networking_ip_v1_api_context : Method
unfolding api_context
networking_ip_v1_api_context = api_context networkingipv1 networkingipv1

unfoldable pub networking_privatelink_v1_api_context : Method
unfolding api_context
networking_privatelink_v1_api_context = api_context networkingprivatelinkv1 networkingprivatelinkv1

unfoldable pub networking_dnsforwarder_v1_api_context : Method
unfolding api_context
networking_dnsforwarder_v1_api_context =
    api_context networkingdnsforwarderv1 networkingdnsforwarderv1

unfoldable pub endpoint_v1_api_context : Method
unfolding api_context
endpoint_v1_api_context = api_context endpointv1 endpointv1

unfoldable pub srcm_v3_api_context : Method
unfolding api_context
srcm_v3_api_context = api_context srcmv3 srcmv3

unfoldable pub connect_v1_api_context : Method
unfolding api_context
connect_v1_api_context = api_context connectv1 connectv1

unfoldable pub org_v2_api_context : Method
unfolding api_context
org_v2_api_context = api_context orgv2 orgv2

unfoldable pub ksql_v2_api_context : Method
unfolding api_context
ksql_v2_api_context = api_context ksqlv2 ksqlv2

unfoldable pub identity_provider_v2_api_context : Method
unfolding api_context
identity_provider_v2_api_context = api_context identityproviderv2 identityproviderv2

unfoldable pub kafka_quotas_v1_api_context : Method
unfolding api_context
kafka_quotas_v1_api_context = api_context kafkaquotasv1 kafkaquotasv1

unfoldable pub rtce_v1_api_context : Method
unfolding api_context
rtce_v1_api_context = api_context rtcev1 rtcev1

-- It knows no OAuth, and drops the context that it is given.
unfoldable pub cam_v1_api_context : Method
unfolding with_value
cam_v1_api_context world c ctx =
    if has_cloud_api_key c
    then some (with_value [] camv1 basic_auth (user c.cloud_api_key c.cloud_api_secret), c)
    else some (ctx, c)
