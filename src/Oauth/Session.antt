-- ===== src/Oauth/Session.antt =====
-- internal/provider/utils.go: the state that a client keeps of its tokens, and their renewal.
use terraform_provider_confl.Base.{Option, none, some, if◌then◌else◌}
use terraform_provider_confl.Oauth.{
  OauthToken, StsToken, OauthError, Result, ok, error, panicked, World,
}
use terraform_provider_confl.Oauth.Tokens.{
  validate_current_external_oauth_token, validate_current_sts_oauth_token,
  request_new_external_oauth_token, request_new_sts_oauth_token, fetch_external_oauth_token,
}

-- What `Client` and `TableflowRestClient` keep of OAuth.
pub record Session : Type 0 where
  pub oauth_token : Option OauthToken
  pub sts_token : Option StsToken

-- The error that is returned, and the session as it is left; none if the method panics.
abbrev pub Step : Type 0
Step = Option (Option OauthError × Session)

-- `stsToken, err := requestNewSTSOAuthToken(…)`: what follows it.
unfoldable pub after_sts : Session → Result StsToken → Step
after_sts session (ok token) =
    some (none, record { oauth_token = session.oauth_token; sts_token = some token })
after_sts session (error e) = some (some e, session)
after_sts session panicked = none

unfoldable pub request_sts : World → Session → OauthToken → Option StsToken → Step
unfolding request_new_sts_oauth_token after_sts
request_sts world session external none = none
request_sts world session external (some sts) = after_sts session (
    request_new_sts_oauth_token world external.access_token sts.identity_pool_id
      sts.expires_in_seconds sts.sts_client)

-- `externalToken, err := requestNewExternalOAuthToken(…)`: what follows it.
unfoldable pub after_external : World → Session → Result OauthToken → Step
unfolding request_sts
after_external world session (ok token) =
    request_sts world (record { oauth_token = some token; sts_token = session.sts_token }) token
      session.sts_token
after_external world session (error e) = some (some e, session)
after_external world session panicked = none

-- The external token first, then an STS token for it.
unfoldable pub renew_both : World → Session → Option OauthToken → Step
unfolding request_new_external_oauth_token after_external
renew_both world session none = none
renew_both world session (some external) = after_external world session (
    request_new_external_oauth_token world external.token_url external.client_id
      external.client_secret external.scope external.identity_pool_id external.http_client)

-- An STS token for the external token that is kept.
unfoldable pub renew_sts : World → Session → Option OauthToken → Step
unfolding request_sts
renew_sts world session none = none
renew_sts world session (some external) = request_sts world session external session.sts_token

-- The methods of that name of `Client` and of `TableflowRestClient` are the same.
unfoldable pub fetch_or_override_sts_oauth_token_from_api_context : World → Session → Step
unfolding validate_current_sts_oauth_token validate_current_external_oauth_token renew_sts
    renew_both
fetch_or_override_sts_oauth_token_from_api_context world session =
    if validate_current_sts_oauth_token session.sts_token world.clock.sts_checked
    then some (none, session)
    else if validate_current_external_oauth_token session.oauth_token world.clock.external_checked
    then renew_sts world session session.oauth_token
    else renew_both world session session.oauth_token

unfoldable pub after_fetch : Session → Result (Option OauthToken) → Step
after_fetch session (ok token) =
    some (none, record { oauth_token = token; sts_token = session.sts_token })
after_fetch session (error e) = some (some e, session)
after_fetch session panicked = none

unfoldable pub fetch_or_override_external_oauth_token_from_api_context : World → Session → Step
unfolding fetch_external_oauth_token after_fetch
fetch_or_override_external_oauth_token_from_api_context world session = elim session.oauth_token [
  | none ↦ none
  | some curr ↦ after_fetch session (
      fetch_external_oauth_token world curr.token_url curr.client_id curr.client_secret curr.scope
        curr.identity_pool_id (some curr) curr.http_client)
]
