-- ===== src/Oauth/Carried.antt =====
-- What a request's context carries, for the methods of Contexts and of RestClients.
use terraform_provider_confl.Base.{◌≡◌, refl, sym, ap, ◌∙◌, Option, some, Option-cases, inl, inr}
use terraform_provider_confl.Oauth.{OauthToken, StsToken, OauthError, World}
use terraform_provider_confl.Oauth.Session.{
  Session, fetch_or_override_sts_oauth_token_from_api_context,
}
use terraform_provider_confl.Oauth.Packages.{
  Name, Package, access_token, token, Context, with_value, value_of, value_of-with_value, apikeysv2,
  byokv1, connectcustompluginv1, cmkv2, iamv2, iamipfilteringv2, certificateauthorityv2, ssov2,
  providerintegrationv1, providerintegrationv2, iamv1, mdsv2, networkingv1, flinkartifactv1,
  flinkv2, networkingaccesspointv1, networkinggatewayv1, networkingipv1, networkingprivatelinkv1,
  networkingdnsforwarderv1, endpointv1, srcmv3, connectv1, orgv2, ksqlv2, identityproviderv2,
  kafkaquotasv1, rtcev1, ccpmv1,
}
use terraform_provider_confl.Oauth.Contexts.{
  Client, Method, authorized, api_context, api_keys_v2_api_context, byok_v1_api_context,
  connect_custom_plugin_v1_api_context, cmk_v2_api_context, iam_v2_api_context,
  iam_ip_filtering_v2_api_context, certificate_authority_v2_api_context, sso_v2_api_context,
  provider_integration_v1_api_context, provider_integration_v2_api_context, iam_v1_api_context,
  mds_v2_api_context, networking_v1_api_context, flink_artifact_v1_api_context,
  flink_v2_api_context, networking_access_point_v1_api_context, networking_gateway_v1_api_context,
  networking_ip_v1_api_context, networking_privatelink_v1_api_context,
  networking_dnsforwarder_v1_api_context, endpoint_v1_api_context, srcm_v3_api_context,
  connect_v1_api_context, org_v2_api_context, ksql_v2_api_context, identity_provider_v2_api_context,
  kafka_quotas_v1_api_context, rtce_v1_api_context, ccpm_v1_api_context,
}

-- The methods whose two keys are those of one package.
pub data Api : Type 0 where
  api_keys_v2 byok_v1 connect_custom_plugin_v1 cmk_v2 iam_v2 iam_ip_filtering_v2
        certificate_authority_v2 sso_v2 provider_integration_v1 provider_integration_v2 iam_v1
        mds_v2 networking_v1 flink_artifact_v1 flink_v2 networking_access_point_v1
        networking_gateway_v1 networking_ip_v1 networking_privatelink_v1 networking_dnsforwarder_v1
        endpoint_v1 srcm_v3 connect_v1 org_v2 ksql_v2 identity_provider_v2 kafka_quotas_v1 rtce_v1 :
      Api

abbrev pub method_of : Api → Method
method_of api_keys_v2 = api_keys_v2_api_context
method_of byok_v1 = byok_v1_api_context
method_of connect_custom_plugin_v1 = connect_custom_plugin_v1_api_context
method_of cmk_v2 = cmk_v2_api_context
method_of iam_v2 = iam_v2_api_context
method_of iam_ip_filtering_v2 = iam_ip_filtering_v2_api_context
method_of certificate_authority_v2 = certificate_authority_v2_api_context
method_of sso_v2 = sso_v2_api_context
method_of provider_integration_v1 = provider_integration_v1_api_context
method_of provider_integration_v2 = provider_integration_v2_api_context
method_of iam_v1 = iam_v1_api_context
method_of mds_v2 = mds_v2_api_context
method_of networking_v1 = networking_v1_api_context
method_of flink_artifact_v1 = flink_artifact_v1_api_context
method_of flink_v2 = flink_v2_api_context
method_of networking_access_point_v1 = networking_access_point_v1_api_context
method_of networking_gateway_v1 = networking_gateway_v1_api_context
method_of networking_ip_v1 = networking_ip_v1_api_context
method_of networking_privatelink_v1 = networking_privatelink_v1_api_context
method_of networking_dnsforwarder_v1 = networking_dnsforwarder_v1_api_context
method_of endpoint_v1 = endpoint_v1_api_context
method_of srcm_v3 = srcm_v3_api_context
method_of connect_v1 = connect_v1_api_context
method_of org_v2 = org_v2_api_context
method_of ksql_v2 = ksql_v2_api_context
method_of identity_provider_v2 = identity_provider_v2_api_context
method_of kafka_quotas_v1 = kafka_quotas_v1_api_context
method_of rtce_v1 = rtce_v1_api_context

-- The package of the client that the context is for.
abbrev pub owner_of : Api → Package
owner_of api_keys_v2 = apikeysv2
owner_of byok_v1 = byokv1
owner_of connect_custom_plugin_v1 = connectcustompluginv1
owner_of cmk_v2 = cmkv2
owner_of iam_v2 = iamv2
owner_of iam_ip_filtering_v2 = iamipfilteringv2
owner_of certificate_authority_v2 = certificateauthorityv2
owner_of sso_v2 = ssov2
owner_of provider_integration_v1 = providerintegrationv1
owner_of provider_integration_v2 = providerintegrationv2
owner_of iam_v1 = iamv1
owner_of mds_v2 = mdsv2
owner_of networking_v1 = networkingv1
owner_of flink_artifact_v1 = flinkartifactv1
owner_of flink_v2 = flinkv2
owner_of networking_access_point_v1 = networkingaccesspointv1
owner_of networking_gateway_v1 = networkinggatewayv1
owner_of networking_ip_v1 = networkingipv1
owner_of networking_privatelink_v1 = networkingprivatelinkv1
owner_of networking_dnsforwarder_v1 = networkingdnsforwarderv1
owner_of endpoint_v1 = endpointv1
owner_of srcm_v3 = srcmv3
owner_of connect_v1 = connectv1
owner_of org_v2 = orgv2
owner_of ksql_v2 = ksqlv2
owner_of identity_provider_v2 = identityproviderv2
owner_of kafka_quotas_v1 = kafkaquotasv1
owner_of rtce_v1 = rtcev1

method_of_lem : (api : Api) → method_of api ≡ api_context (owner_of api) (owner_of api)
unfolding api_keys_v2_api_context byok_v1_api_context connect_custom_plugin_v1_api_context
    cmk_v2_api_context iam_v2_api_context iam_ip_filtering_v2_api_context
    certificate_authority_v2_api_context sso_v2_api_context provider_integration_v1_api_context
    provider_integration_v2_api_context iam_v1_api_context mds_v2_api_context
    networking_v1_api_context flink_artifact_v1_api_context flink_v2_api_context
    networking_access_point_v1_api_context networking_gateway_v1_api_context
    networking_ip_v1_api_context networking_privatelink_v1_api_context
    networking_dnsforwarder_v1_api_context endpoint_v1_api_context srcm_v3_api_context
    connect_v1_api_context org_v2_api_context ksql_v2_api_context identity_provider_v2_api_context
    kafka_quotas_v1_api_context rtce_v1_api_context
method_of_lem api_keys_v2 = refl
method_of_lem _ = refl

-- The context and the client of a call that has returned.
returned_inj :
    {extended made : Context}
    → {left c : Client}
    → ◌≡◌ {A = Option (Context × Client)} (some (made, c)) (some (extended, left))
    → (made ≡ extended) × (c ≡ left)
returned_inj h = (cc, cc)

authorized_adds :
    (owner : Package) (c left : Client) (ctx extended : Context) (session : Session)
    → authorized owner c ctx session ≡ some (extended, left)
    → (used : StsToken) × (left.session ≡ session)
      × (session.sts_token ≡ some used)
      × (extended ≡ with_value ctx owner access_token (token used.access_token))
unfolding authorized
authorized_adds owner c left ctx extended session h = elim (Option-cases session.sts_token) [
  | inl missing ↦ absurd (let h1 = rw (missing, authorized) at h in cc)
  | inr (used, there) ↦
      let (made, stays) = returned_inj (rw (there, authorized) at h) in
      (used, ap (λ k. k.session) (sym stays), there, sym made)
]

-- What a method adds for a client with both tokens: the access token that the renewal leaves, under
-- the first of the two keys.
added :
    (token_owner user_owner : Package) (world : World) (c left : Client) (ctx extended : Context)
    (external : OauthToken) (sts : StsToken)
    → c.session.oauth_token ≡ some external
    → c.session.sts_token ≡ some sts
    → api_context token_owner user_owner world c ctx ≡ some (extended, left)
    → (used : StsToken) × (e : Option OauthError)
      × (fetch_or_override_sts_oauth_token_from_api_context world c.session
          ≡ some (e, left.session))
      × (left.session.sts_token ≡ some used)
      × (extended ≡ with_value ctx token_owner access_token (token used.access_token))
unfolding api_context
added token_owner user_owner world c left ctx extended external sts has_external has_sts step =
    let step1 = rw (has_external, has_sts, api_context) at step in
    elim (Option-cases (fetch_or_override_sts_oauth_token_from_api_context world c.session)) [
      | inl panics ↦ absurd (let step2 = rw panics at step1 in cc)
      | inr ((e, session), renewed) ↦
          let (used, stays, there, made) =
            authorized_adds token_owner c left ctx extended session (rw renewed at step1) in
          (
            used,
            e,
            renewed ∙ ap (λ s. some (e, s)) (sym stays),
            ap (λ s. s.sts_token) stays ∙ there,
            made,
          )
    ]

-- If a client has both tokens and a method other than `ccpmV1ApiContext` and `camV1ApiContext`
-- returns, then the key under which its API's package looks for an access token has, in the
-- context, the access token of the STS token that the client is left with.
pub method-access_token :
    (api : Api) (world : World) (c left : Client) (ctx extended : Context) (external : OauthToken)
    (sts : StsToken)
    → c.session.oauth_token ≡ some external
    → c.session.sts_token ≡ some sts
    → method_of api world c ctx ≡ some (extended, left)
    → (used : StsToken) × (left.session.sts_token ≡ some used)
      × (value_of extended (owner_of api) access_token ≡ some (token used.access_token))
method-access_token api world c left ctx extended external sts has_external has_sts step =
    let (used, e, renewed, there, made) =
      added (owner_of api) (owner_of api) world c left ctx extended external sts has_external
        has_sts (ap (λ m. m world c ctx) (sym (method_of_lem api)) ∙ step) in
    (
      used,
      there,
      ap (λ k. value_of k (owner_of api) access_token) made
          ∙ value_of-with_value ctx (owner_of api) (token used.access_token),
    )

-- If a client has both tokens and `ccpmV1ApiContext` returns, then the context
-- has under the keys of that API's package what it had before.
pub ccpm_v1_api_context-unauthorized :
    (world : World) (c left : Client) (ctx extended : Context) (external : OauthToken)
    (sts : StsToken) (name : Name)
    → c.session.oauth_token ≡ some external
    → c.session.sts_token ≡ some sts
    → ccpm_v1_api_context world c ctx ≡ some (extended, left)
    → value_of extended ccpmv1 name ≡ value_of ctx ccpmv1 name
unfolding ccpm_v1_api_context value_of with_value
ccpm_v1_api_context-unauthorized world c left ctx extended external sts name has_external has_sts
      step =
    let (used, e, renewed, there, made) =
      added connectcustompluginv1 ccpmv1 world c left ctx extended external sts has_external has_sts
        step in
    ap (λ k. value_of k ccpmv1 name) made
