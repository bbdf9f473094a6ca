-- ===== src/Oauth/Renewal.antt =====
-- What a renewal of the tokens of a session does, over every branch of it.
use terraform_provider_confl.Base.{
  ◌≤◌, ◌≡◌, ◌≢◌, refl, sym, ap, ◌∙◌, true, Option, none, some, List, [], ◌∷◌, String, Bool-cases,
  inl, inr,
}
use terraform_provider_confl.Oauth.{
  Handle, OauthToken, StsToken, OauthError, Result, ok, error, panicked, World,
}
use terraform_provider_confl.Oauth.Tokens.{
  validate_current_sts_oauth_token, validate_current_external_oauth_token, sts_token_of,
  request_new_sts_oauth_token, request_new_external_oauth_token,
}
use terraform_provider_confl.Oauth.Session.{
  Session, after_sts, request_sts, after_external, renew_both, renew_sts,
  fetch_or_override_sts_oauth_token_from_api_context,
}
use terraform_provider_confl.Oauth.Validity.{HasLifetimes, sts_reply_of, sts_token_issued}
use terraform_provider_confl.Oauth.External.{request_new-MadeOf}

-- What a request for an external token is made with.
abbrev pub external_credentials : OauthToken → List String × Option Handle
external_credentials token = (
  token.token_url ∷ token.client_id ∷ token.client_secret ∷ token.scope ∷ token.identity_pool_id
      ∷ [],
  token.http_client,
)

abbrev pub sts_credentials : StsToken → String × Option Handle
sts_credentials token = (token.identity_pool_id, token.sts_client)

abbrev option_map {ℓ κ} : {A : Type ℓ} → {B : Type κ} → (A → B) → Option A → Option B
option_map f none = none
option_map f (some a) = some (f a)

abbrev pub Credentials : Type 0
Credentials = Option (List String × Option Handle) × Option (String × Option Handle)

abbrev pub credentials : Session → Credentials
credentials session = (
  option_map external_credentials session.oauth_token,
  option_map sts_credentials session.sts_token,
)

-- What a renewal that starts at `session` may leave.
abbrev Renewed : World → Session → Option OauthError → Session → Type 0
Renewed world session e left =
    (credentials left ≡ credentials session)
    × (e ≡ none
        → HasLifetimes world
        → world.clock.sts_checked ≤ world.clock.sts_issued
        → validate_current_sts_oauth_token left.sts_token world.clock.sts_checked ≡ true)
    × (e ≢ none → left.sts_token ≡ session.sts_token)

some_inj {ℓ} : {A : Type ℓ} → {a b : A} → some a ≡ some b → a ≡ b
some_inj h = cc

-- A new STS token has the credentials that it has been requested with.
sts_credentials_kept :
    (world : World) (subject_token : String) (sts token : StsToken)
    → request_new_sts_oauth_token world subject_token sts.identity_pool_id sts.expires_in_seconds
        sts.sts_client
      ≡ ok token
    → sts_credentials token ≡ sts_credentials sts
unfolding sts_token_of
sts_credentials_kept world subject_token sts token h =
    let (handle, request, resp, there, answered, same) =
      sts_reply_of world subject_token sts.identity_pool_id sts.expires_in_seconds sts.sts_client
        token h in
    ap sts_credentials same ∙ ap (λ c. (sts.identity_pool_id, c)) (sym there)

module _ (world : World) (start session : Session) (creds : credentials session ≡ credentials start)
    (same : session.sts_token ≡ start.sts_token) where
  error-Renewed :
      (x : OauthError) (e : Option OauthError) (left : Session)
      → after_sts session (error x) ≡ some (e, left)
      → Renewed world start e left
  unfolding after_sts
  error-Renewed x e left step =
      let is_error : some x ≡ e = ap (λ p. p.0) (some_inj step) in
      let stays : session ≡ left = ap (λ p. p.1) (some_inj step) in
      (
        ap credentials (sym stays) ∙ creds,
        λ h _ _. absurd (cc),
        λ _. ap (λ s. s.sts_token) (sym stays) ∙ same,
      )

  after_sts-Renewed :
      (subject_token : String) (sts : StsToken) (r : Result StsToken) (e : Option OauthError)
      (left : Session)
      → session.sts_token ≡ some sts
      → request_new_sts_oauth_token world subject_token sts.identity_pool_id sts.expires_in_seconds
          sts.sts_client
        ≡ r
      → after_sts session r ≡ some (e, left)
      → Renewed world start e left
  unfolding after_sts
  after_sts-Renewed subject_token sts (ok token) e left there h step =
      let no_error : none ≡ e = ap (λ p. p.0) (some_inj step) in
      let stays = ap (λ p. p.1) (some_inj step) in
      (
        ap credentials (sym stays)
            ∙ ap (λ c. (option_map external_credentials session.oauth_token, some c))
                (sts_credentials_kept world subject_token sts token h)
            ∙ ap
                (λ t. (
                  option_map external_credentials session.oauth_token,
                  option_map sts_credentials t,
                ))
                (sym there)
            ∙ creds,
        λ _ lifetimes before.
            ap (λ s. validate_current_sts_oauth_token s.sts_token world.clock.sts_checked)
              (sym stays)
            ∙ sts_token_issued world subject_token sts.identity_pool_id sts.expires_in_seconds
                sts.sts_client token world.clock.sts_checked lifetimes h before,
        λ bad. absurd (bad (sym no_error)),
      )
  after_sts-Renewed subject_token sts (error x) e left there h step = error-Renewed x e left step
  after_sts-Renewed subject_token sts panicked e left there h step = absurd (cc)

  request_sts-Renewed :
      (external : OauthToken) (sts : Option StsToken) (e : Option OauthError) (left : Session)
      → session.sts_token ≡ sts
      → request_sts world session external sts ≡ some (e, left)
      → Renewed world start e left
  unfolding request_sts
  request_sts-Renewed external none e left there step = absurd (cc)
  request_sts-Renewed external (some sts) e left there step =
      after_sts-Renewed external.access_token sts _ e left there refl step

-- A new external token has the credentials that it has been requested with.
external_credentials_kept :
    (world : World) (external token : OauthToken)
    → request_new_external_oauth_token world external.token_url external.client_id
        external.client_secret external.scope external.identity_pool_id external.http_client
      ≡ ok token
    → external_credentials token ≡ external_credentials external
external_credentials_kept world external token h =
    let (raw, reply, decoded, set, scope, pool, url, id, secret, client) =
      request_new-MadeOf world external.scope external.identity_pool_id external.token_url
        external.client_id external.client_secret external.http_client token h in
    rw (scope, pool, url, id, secret, client) refl

module _ (world : World) (session : Session) where
  after_external-Renewed :
      (external : OauthToken) (r : Result OauthToken) (e : Option OauthError) (left : Session)
      → session.oauth_token ≡ some external
      → request_new_external_oauth_token world external.token_url external.client_id
          external.client_secret external.scope external.identity_pool_id external.http_client
        ≡ r
      → after_external world session r ≡ some (e, left)
      → Renewed world session e left
  unfolding after_external after_sts
  after_external-Renewed external (ok token) e left there h step =
      request_sts-Renewed world session
        (record { oauth_token = some token; sts_token = session.sts_token })
        (ap (λ c. (some c, option_map sts_credentials session.sts_token))
            (external_credentials_kept world external token h)
          ∙ ap
              (λ t.
                (option_map external_credentials t, option_map sts_credentials session.sts_token))
              (sym there))
        refl token session.sts_token e left refl step
  after_external-Renewed external (error x) e left there h step =
      error-Renewed world session session refl refl x e left step
  after_external-Renewed external panicked e left there h step = absurd (cc)

  renew_both-Renewed :
      (external : Option OauthToken) (e : Option OauthError) (left : Session)
      → session.oauth_token ≡ external
      → renew_both world session external ≡ some (e, left)
      → Renewed world session e left
  unfolding renew_both
  renew_both-Renewed none e left there step = absurd (cc)
  renew_both-Renewed (some external) e left there step =
      after_external-Renewed external _ e left there refl step

  renew_sts-Renewed :
      (external : Option OauthToken) (e : Option OauthError) (left : Session)
      → renew_sts world session external ≡ some (e, left)
      → Renewed world session e left
  unfolding renew_sts
  renew_sts-Renewed none e left step = absurd (cc)
  renew_sts-Renewed (some external) e left step =
      request_sts-Renewed world session session refl refl external session.sts_token e left refl
        step

  -- Every branch of the renewal.
  pub renewal :
      (e : Option OauthError) (left : Session)
      → fetch_or_override_sts_oauth_token_from_api_context world session ≡ some (e, left)
      → Renewed world session e left
  unfolding fetch_or_override_sts_oauth_token_from_api_context
  renewal e left step =
      elim (Bool-cases
        (validate_current_sts_oauth_token session.sts_token world.clock.sts_checked)) [
          | inl valid ↦
              let kept = some_inj (rw valid at step) in
              let stays : session ≡ left = ap (λ p. p.1) kept in
              (
                ap credentials (sym stays),
                λ _ _ _.
                    ap (λ s. validate_current_sts_oauth_token s.sts_token world.clock.sts_checked)
                      (sym stays)
                    ∙ valid,
                λ bad. absurd (bad (sym (ap (λ p. p.0) kept))),
              )
          | inr expired ↦
              elim (Bool-cases (
                validate_current_external_oauth_token session.oauth_token
                  world.clock.external_checked)) [
                    | inl valid ↦
                        renew_sts-Renewed session.oauth_token e left (rw (expired, valid) at step)
                    | inr old ↦
                        renew_both-Renewed session.oauth_token e left refl
                          (rw (expired, old) at step)
                  ]
        ]
