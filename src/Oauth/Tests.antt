-- ===== src/Oauth/Tests.antt =====
-- The theorems on tokens, at concrete replies of the servers.
use terraform_provider_confl.Base.{
  ℤ, pos, ℕ, ◌≤◌, ◌<◌, ◌≡◌, ◌+◌, ◌*◌, ◌⊎◌, refl, ap, ◌∙◌, true, false, Option, none, some, List, [],
  ◌∷◌, arith, codes,
}
use terraform_provider_confl.Http.{network}
use mathlib.Core.Path.{subst}
use terraform_provider_confl.Oauth.{
  OauthToken, StsToken, TokenReply, StsReply, Json, text, number, Clock, World, transport, ok,
}
use terraform_provider_confl.Oauth.Decimal
use terraform_provider_confl.Oauth.Tokens
use terraform_provider_confl.Oauth.Session
use terraform_provider_confl.Oauth.Packages
use terraform_provider_confl.Oauth.Validity
use terraform_provider_confl.Oauth.External
use terraform_provider_confl.Oauth.Renewal
use terraform_provider_confl.Oauth.Kept
use terraform_provider_confl.Oauth.Contexts
use terraform_provider_confl.Oauth.Carried
use terraform_provider_confl.Oauth.RestClients
use terraform_provider_confl.Oauth.RestCarried

abbrev clock : Clock
clock = record {
  sts_checked = 5000000000000;
  external_checked = 5000000000000;
  external_issued = 5001000000000;
  sts_issued = 5002000000000;
}

abbrev sts_reply : StsReply
sts_reply = record {
  access_token = "sts-2";
  token_type = "Bearer";
  issued_token_type = "access_token";
  expires_in = 900;
}

-- The servers answer: an hour for an external token, a quarter of an hour for an STS token.
abbrev answering : World
answering = record {
  clock = clock;
  parses = λ _. true;
  unmarshal = λ _. some record {
    access_token = some (text "external-2");
    token_type = some (text "Bearer");
    expires_in = some (number "3600" (pos 3600));
  };
  send = λ _ _. some record { status_code = 200; body = network [] };
  exchange = λ _ _. some sts_reply;
}

-- No server answers.
abbrev silent : World
silent = record {
  clock = clock;
  parses = λ _. true;
  unmarshal = λ _. none;
  send = λ _ _. none;
  exchange = λ _ _. none;
}

-- The tokens of a session that has been idle for a long time.
abbrev old_external : OauthToken
old_external = record {
  client_id = "id";
  client_secret = "secret";
  token_url = "https://idp/token";
  expires_in_seconds = "3600";
  scope = "";
  access_token = "external-1";
  token_type = "Bearer";
  identity_pool_id = "pool-1";
  valid_until = 4000000000000;
  http_client = some 1;
}

abbrev old_sts : StsToken
old_sts = record {
  expires_in_seconds = codes "900";
  access_token = "sts-1";
  token_type = "Bearer";
  issued_token_type = "access_token";
  identity_pool_id = "pool-1";
  valid_until = 1000000000000;
  sts_client = some 2;
}

abbrev idle : Session.Session
idle = record { oauth_token = some old_external; sts_token = some old_sts }

answering_lifetimes : Validity.HasLifetimes answering
answering_lifetimes handle request resp h =
    let same : 900 ≡ resp.expires_in = cc in (omega arith, omega arith)

-- What the renewal of an idle session leaves when the servers answer.
abbrev new_external : OauthToken
new_external = record {
  client_id = "id";
  client_secret = "secret";
  token_url = "https://idp/token";
  expires_in_seconds = "3600";
  scope = "";
  access_token = "external-2";
  token_type = "Bearer";
  identity_pool_id = "pool-1";
  valid_until = 8421000000000;
  http_client = some 1;
}

abbrev new_sts : StsToken
new_sts = record {
  expires_in_seconds = codes "900";
  access_token = "sts-2";
  token_type = "Bearer";
  issued_token_type = "access_token";
  identity_pool_id = "pool-1";
  valid_until = 5842000000000;
  sts_client = some 2;
}

abbrev renewed : Session.Session
renewed = record { oauth_token = some new_external; sts_token = some new_sts }

renews :
    Session.fetch_or_override_sts_oauth_token_from_api_context answering idle ≡ some (none, renewed)
unfolding Session.fetch_or_override_sts_oauth_token_from_api_context
renews = refl

fails :
    Session.fetch_or_override_sts_oauth_token_from_api_context silent idle
    ≡ some (some transport, idle)
unfolding Session.fetch_or_override_sts_oauth_token_from_api_context
fails = refl

requests_sts :
    Tokens.request_new_sts_oauth_token answering "external-2" "pool-1" (codes "900") (some 2)
    ≡ ok new_sts
unfolding Tokens.request_new_sts_oauth_token
requests_sts = refl

requests_external :
    Tokens.request_new_external_oauth_token answering "https://idp/token" "id" "secret" "" "pool-1"
      (some 1)
    ≡ ok new_external
unfolding Tokens.request_new_external_oauth_token
requests_external = refl

sts_token_unexpired_example :
    (n : ℕ) × (Decimal.parse_int new_sts.expires_in_seconds ≡ some (false, n))
    × (5842000000000 < answering.clock.sts_issued + n * Tokens.second)
    × (60 < n
        → 5842000000000 + Tokens.sts_token_expiration_buffer
          ≤ answering.clock.sts_issued + n * Tokens.second)
sts_token_unexpired_example =
    Validity.sts_token_unexpired answering "external-2" "pool-1" (codes "900") (some 2) new_sts
      5842000000000 answering_lifetimes requests_sts
      (unfold Tokens.validate_current_sts_oauth_token in refl)

abbrev seconds_of : Option Json → ℤ
seconds_of (some (number printed whole)) = whole
seconds_of _ = pos 0

abbrev lifetime_of : Option TokenReply → ℤ
lifetime_of (some reply) = seconds_of reply.expires_in
lifetime_of none = pos 0

external_lifetimes : External.HasExternalLifetimes answering
external_lifetimes raw reply printed whole decoded h =
    let same : pos 3600 ≡ whole = ap lifetime_of decoded ∙ ap seconds_of h in
    subst External.IsLifetime same (omega arith, omega arith)

external_token_unexpired_example :
    (raw : List ℕ) × (reply : TokenReply) × (whole : ℕ) × (answering.unmarshal raw ≡ some reply)
    × (reply.expires_in ≡ some (number new_external.expires_in_seconds (pos whole)))
    × (6000000000000 < answering.clock.external_issued + whole * Tokens.second)
    × (180 < whole
        → 6000000000000 + Tokens.external_token_expiration_buffer
          ≤ answering.clock.external_issued + whole * Tokens.second)
external_token_unexpired_example =
    External.external_token_unexpired answering "https://idp/token" "id" "secret" "" "pool-1"
      (some 1) new_external 6000000000000 external_lifetimes requests_external
      (unfold Tokens.validate_current_external_oauth_token in refl)

renewal_succeeds_example :
    Tokens.validate_current_sts_oauth_token renewed.sts_token answering.clock.sts_checked ≡ true
renewal_succeeds_example =
    Kept.renewal_succeeds-valid answering idle renewed renews answering_lifetimes (omega arith)

renewal_fails_example : idle.sts_token ≡ idle.sts_token
renewal_fails_example = Kept.renewal_fails-keeps silent idle idle transport fails

renew_all_example : Renewal.credentials renewed ≡ Renewal.credentials idle
renew_all_example =
    Kept.renew_all-credentials (silent ∷ answering ∷ silent ∷ []) idle renewed
      (unfold Kept.renew_all in refl)

abbrev client : Contexts.Client
client = record { session = idle; cloud_api_key = ""; cloud_api_secret = "" }

abbrev renewed_client : Contexts.Client
renewed_client = record { session = renewed; cloud_api_key = ""; cloud_api_secret = "" }

abbrev carried : Packages.Context
carried = (Packages.cmkv2, Packages.access_token, Packages.token "sts-2") ∷ []

method_example :
    (used : StsToken) × (renewed_client.session.sts_token ≡ some used)
    × (Packages.value_of carried Packages.cmkv2 Packages.access_token
        ≡ some (Packages.token used.access_token))
method_example =
    Carried.method-access_token Carried.cmk_v2 answering client renewed_client [] carried
      old_external old_sts refl refl (unfold Contexts.cmk_v2_api_context in refl)

abbrev carried_elsewhere : Packages.Context
carried_elsewhere =
    (Packages.connectcustompluginv1, Packages.access_token, Packages.token "sts-2") ∷ []

ccpm_example :
    Packages.value_of carried_elsewhere Packages.ccpmv1 Packages.access_token
    ≡ Packages.value_of [] Packages.ccpmv1 Packages.access_token
ccpm_example =
    Carried.ccpm_v1_api_context-unauthorized answering client renewed_client [] carried_elsewhere
      old_external old_sts Packages.access_token refl refl
      (unfold Contexts.ccpm_v1_api_context in refl)

abbrev rest_client : RestClients.RestClient
rest_client = record { external_access_token = some old_external; api_key = ""; api_secret = "" }

abbrev renewed_rest_client : RestClients.RestClient
renewed_rest_client = record {
  external_access_token = some new_external;
  api_key = "";
  api_secret = "";
}

abbrev rest_carried : Packages.Context
rest_carried = (Packages.kafkarestv3, Packages.access_token, Packages.token "external-2") ∷ []

rest_method_example :
    (used : OauthToken) × (renewed_rest_client.external_access_token ≡ some used)
    × (Packages.value_of rest_carried Packages.kafkarestv3 Packages.access_token
        ≡ some (Packages.token used.access_token))
    × (((used ≡ old_external)
          × (Tokens.validate_current_external_oauth_token
                (some old_external)
                answering.clock.external_checked
              ≡ true))
        ⊎ ((RestCarried.renew answering old_external ≡ ok used)
            × (Tokens.validate_current_external_oauth_token
                  (some old_external)
                  answering.clock.external_checked
                ≡ false)))
rest_method_example =
    RestCarried.rest_method-access_token RestCarried.kafka_rest answering rest_client []
      old_external refl renewed_rest_client rest_carried
      (unfold RestClients.kafka_rest_client_api_context in refl)
