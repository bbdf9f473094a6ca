-- ===== src/Oauth/RestCarried.antt =====
-- What the contexts of the REST clients carry, over the five methods that know OAuth.
use terraform_provider_confl.Base.{
  ◌≡◌, refl, sym, ap, ◌∙◌, true, false, Option, none, some, Bool-cases, inl, inr, ◌⊎◌,
}
use terraform_provider_confl.Oauth.{OauthToken, OauthError, Result, ok, error, panicked, World}
use terraform_provider_confl.Oauth.Tokens.{
  bind, validate_current_external_oauth_token, request_new_external_oauth_token,
  fetch_external_oauth_token,
}
use terraform_provider_confl.Oauth.External.{bind_ok, ok_inj}
use terraform_provider_confl.Oauth.Packages.{
  Package, access_token, token, Context, value_of, value_of-with_value, kafkarestv3,
  schemaregistryv1, datacatalogv1, flinkgatewayv1,
}
use terraform_provider_confl.Oauth.RestClients.{
  RestClient, Method, with_token, rest_api_context, kafka_rest_client_api_context,
  schema_registry_rest_client_api_context, schema_registry_rest_client_data_catalog_v1_api_context,
  catalog_rest_client_data_catalog_v1_api_context, flink_rest_client_api_context,
}

pub data RestApi : Type 0 where
  kafka_rest schema_registry schema_registry_data_catalog data_catalog flink : RestApi

abbrev pub method_of : RestApi → Method
method_of kafka_rest = kafka_rest_client_api_context
method_of schema_registry = schema_registry_rest_client_api_context
method_of schema_registry_data_catalog = schema_registry_rest_client_data_catalog_v1_api_context
method_of data_catalog = catalog_rest_client_data_catalog_v1_api_context
method_of flink = flink_rest_client_api_context

abbrev pub owner_of : RestApi → Package
owner_of kafka_rest = kafkarestv3
owner_of schema_registry = schemaregistryv1
owner_of schema_registry_data_catalog = datacatalogv1
owner_of data_catalog = datacatalogv1
owner_of flink = flinkgatewayv1

method_of_lem : (api : RestApi) → method_of api ≡ rest_api_context (owner_of api)
unfolding kafka_rest_client_api_context schema_registry_rest_client_api_context
    schema_registry_rest_client_data_catalog_v1_api_context
    catalog_rest_client_data_catalog_v1_api_context flink_rest_client_api_context
method_of_lem kafka_rest = refl
method_of_lem _ = refl

-- The request for the token that takes the place of an old one.
abbrev pub renew : World → OauthToken → Result OauthToken
renew world curr =
    request_new_external_oauth_token world curr.token_url curr.client_id curr.client_secret
      curr.scope curr.identity_pool_id curr.http_client

returned_inj :
    {extended made : Context}
    → {left c : RestClient}
    → ◌≡◌ {A = Option (Context × RestClient)} (some (made, c)) (some (extended, left))
    → (made ≡ extended) × (c ≡ left)
returned_inj h = (cc, cc)

-- What a call that has returned has left.
with_token-carries :
    (owner : Package) (c left : RestClient) (ctx extended : Context) (t : OauthToken)
    → with_token owner c ctx (some t) ≡ some (extended, left)
    → (left.external_access_token ≡ some t)
      × (value_of extended owner access_token ≡ some (token t.access_token))
unfolding with_token
with_token-carries owner c left ctx extended t h =
    let (made, stays) = returned_inj h in
    (
      ap (λ k. k.external_access_token) (sym stays),
      ap (λ k. value_of k owner access_token) (sym made)
          ∙ value_of-with_value ctx owner (token t.access_token),
    )

module _ (api : RestApi) (world : World) (c : RestClient) (ctx : Context) (curr : OauthToken)
    (there : c.external_access_token ≡ some curr) where
  abbrev fetched : Result (Option OauthToken)
  fetched =
      fetch_external_oauth_token world curr.token_url curr.client_id curr.client_secret curr.scope
        curr.identity_pool_id (some curr) curr.http_client

  fetched-valid :
      validate_current_external_oauth_token (some curr) world.clock.external_checked ≡ true
      → fetched ≡ ok (some curr)
  unfolding fetch_external_oauth_token
  fetched-valid valid = rw (valid, fetch_external_oauth_token) refl

  fetched-old :
      (r : Result OauthToken)
      → validate_current_external_oauth_token (some curr) world.clock.external_checked ≡ false
      → renew world curr ≡ r
      → fetched ≡ bind r (λ t. ok (some t))
  unfolding fetch_external_oauth_token
  fetched-old r old h = rw (old, h, fetch_external_oauth_token) refl

  -- If the client's token is no longer valid and a new one cannot be requested, the method panics.
  rest_method_panics :
      (e : OauthError)
      → validate_current_external_oauth_token (some curr) world.clock.external_checked ≡ false
      → renew world curr ≡ error e
      → method_of api world c ctx ≡ none
  unfolding rest_api_context with_token
  rest_method_panics e old failed =
      ap (λ m. m world c ctx) (method_of_lem api)
      ∙ rw (there, fetched-old (error e) old failed, rest_api_context) refl

  method_fetched :
      (r : Result (Option OauthToken)) (left : RestClient) (extended : Context)
      → fetched ≡ r
      → method_of api world c ctx ≡ some (extended, left)
      → (t : Option OauthToken) × (r ≡ ok t)
        × (with_token (owner_of api) c ctx t ≡ some (extended, left))
  unfolding rest_api_context with_token
  method_fetched (ok t) left extended h step = (
    t,
    refl,
    rw (there, h, rest_api_context) at (ap (λ m. m world c ctx) (sym (method_of_lem api)) ∙ step),
  )
  method_fetched (error e) left extended h step = absurd (
      let step1 =
        rw (there, h, rest_api_context) at
          (ap (λ m. m world c ctx) (sym (method_of_lem api)) ∙ step) in
      cc)
  method_fetched panicked left extended h step = absurd (
      let step1 =
        rw (there, h, rest_api_context) at
          (ap (λ m. m world c ctx) (sym (method_of_lem api)) ∙ step) in
      cc)

  -- What the method carries after a new token has been requested.
  renewed_carries :
      (r : Result OauthToken) (left : RestClient) (extended : Context)
      → validate_current_external_oauth_token (some curr) world.clock.external_checked ≡ false
      → renew world curr ≡ r
      → method_of api world c ctx ≡ some (extended, left)
      → (used : OauthToken) × (r ≡ ok used)
        × (left.external_access_token ≡ some used)
        × (value_of extended (owner_of api) access_token ≡ some (token used.access_token))
  renewed_carries r left extended old h step =
      let (t, fine, made) =
        method_fetched (bind r (λ t. ok (some t))) left extended (fetched-old r old h) step in
      let (used, is_ok, same) = bind_ok r (λ t. ok (some t)) t fine in
      let (has, carries) =
        with_token-carries (owner_of api) c left ctx extended used
          (ap (with_token (owner_of api) c ctx) (ok_inj same) ∙ made) in
      (used, is_ok, has, carries)

  -- If the client has a token and the method returns, then the key under which its API's package
  -- looks for an access token has, in the context, that of the token that the client is left with:
  -- the token that it had, which is valid, or a new one in place of one that is not.
  pub rest_method-access_token :
      (left : RestClient) (extended : Context)
      → method_of api world c ctx ≡ some (extended, left)
      → (used : OauthToken) × (left.external_access_token ≡ some used)
        × (value_of extended (owner_of api) access_token ≡ some (token used.access_token))
        × (((used ≡ curr)
              × (validate_current_external_oauth_token (some curr) world.clock.external_checked
                  ≡ true))
            ⊎ ((renew world curr ≡ ok used)
                × (validate_current_external_oauth_token (some curr) world.clock.external_checked
                    ≡ false)))
  rest_method-access_token left extended step =
      elim (Bool-cases
        (validate_current_external_oauth_token (some curr) world.clock.external_checked)) [
          | inl valid ↦
              let (t, same, made) =
                method_fetched (ok (some curr)) left extended (fetched-valid valid) step in
              let (has, carries) =
                with_token-carries (owner_of api) c left ctx extended curr
                  (ap (with_token (owner_of api) c ctx) (ok_inj same) ∙ made) in
              (curr, has, carries, inl (refl, valid))
          | inr old ↦
              let (used, is_ok, has, carries) =
                renewed_carries (renew world curr) left extended old refl step in
              (used, has, carries, inr (is_ok, old))
        ]
