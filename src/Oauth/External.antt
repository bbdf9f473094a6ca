-- ===== src/Oauth/External.antt =====
-- What an external token is made of, and when it counts as valid.
use terraform_provider_confl.Base.{
  ℕ, ℤ, pos, negsuc, times_int64-fits, ◌+◌, ◌*◌, ◌≤◌, ◌<◌, ◌≡◌, refl, sym, ap, ◌∙◌, true, false,
  Option, none, some, List, String, ◌==◌, arith, Bool-cases, Option-cases, inl, inr,
}
use mathlib.Core.Bool.{false≢true}
use terraform_provider_confl.Http.{Response, Body, read_all, status_ok}
use terraform_provider_confl.Oauth.{
  Handle, OauthToken, TokenReply, Json, text, number, other, Result, ok, error, panicked, World,
}
use terraform_provider_confl.Oauth.Tokens.{
  bind, second, external_token_expiration_buffer, is_current, validate_current_external_oauth_token,
  expiry_of, valid_until_of, parse_external_oauth_response, external_reply,
  build_external_oauth_request, request_new_external_oauth_token,
}
use terraform_provider_confl.Oauth.Validity.{is_current-expiration_buffer}

pub ok_inj {ℓ} : {A : Type ℓ} → {a b : A} → ok a ≡ ok b → a ≡ b
ok_inj h = cc

pub bind_ok {ℓ κ} :
    {A : Type ℓ}
    → {B : Type κ} → (r : Result A) (next : A → Result B) (b : B) → bind r next ≡ ok b
    → (a : A) × (r ≡ ok a) × (next a ≡ ok b)
bind_ok (ok a) next b h = (a, refl, h)
bind_ok (error e) next b h = absurd (cc)
bind_ok panicked next b h = absurd (cc)

module _ (world : World)
    (custom_scope identity_pool_id token_url client_id client_secret : String) where
  -- The token has been requested with these credentials, and it has the expiry of a decoded reply.
  abbrev pub MadeOf : Option Handle → OauthToken → Type 0
  MadeOf client given =
      (raw : List ℕ) × (reply : TokenReply) × (world.unmarshal raw ≡ some reply)
      × (expiry_of reply.expires_in world.clock.external_issued
          ≡ ok (given.expires_in_seconds, given.valid_until))
      × (given.scope ≡ custom_scope)
      × (given.identity_pool_id ≡ identity_pool_id)
      × (given.token_url ≡ token_url)
      × (given.client_id ≡ client_id)
      × (given.client_secret ≡ client_secret)
      × (given.http_client ≡ client)

  parsed :
      (body : Body) (client : Option Handle) (given : OauthToken)
      → parse_external_oauth_response world body custom_scope identity_pool_id token_url client_id
          client_secret client
        ≡ ok given
      → MadeOf client given
  unfolding parse_external_oauth_response
  parsed body client given h = elim (Option-cases (read_all body).0) [
    | inl broken ↦ absurd (let h1 = rw (broken, parse_external_oauth_response) at h in cc)
    | inr (raw, read) ↦
        let h1 = rw (read, parse_external_oauth_response) at h in
        elim (Option-cases (world.unmarshal raw)) [
          | inl broken ↦ absurd (let h2 = rw broken at h1 in cc)
          | inr (reply, decoded) ↦
              let h2 = rw decoded at h1 in
              let (expiry, set, made) = bind_ok _ _ _ h2 in
              let same = ok_inj made in
              (
                raw,
                reply,
                decoded,
                set ∙ ap (λ t. ok (t.expires_in_seconds, t.valid_until)) same,
                ap (λ t. t.scope) (sym same),
                ap (λ t. t.identity_pool_id) (sym same),
                ap (λ t. t.token_url) (sym same),
                ap (λ t. t.client_id) (sym same),
                ap (λ t. t.client_secret) (sym same),
                ap (λ t. t.http_client) (sym same),
              )
        ]
  ]

  replied :
      (resp : Option Response) (client : Option Handle) (given : OauthToken)
      → external_reply world resp custom_scope identity_pool_id token_url client_id client_secret
          client
        ≡ ok given
      → MadeOf client given
  unfolding external_reply
  replied none client given h = absurd (cc)
  replied (some resp) client given h = elim (Bool-cases (resp.status_code == status_ok)) [
    | inl fine ↦ parsed resp.body client given (rw (fine, external_reply) at h)
    | inr bad ↦
        let h1 = rw (bad, external_reply) at h in
        elim (Option-cases (read_all resp.body).0) [
          | inl broken ↦ absurd (let h2 = rw broken at h1 in cc)
          | inr (description, read) ↦ absurd (let h2 = rw read at h1 in cc)
        ]
  ]

  -- A new external token has the credentials of its request, and the expiry of a decoded reply.
  pub request_new-MadeOf :
      (client : Option Handle) (given : OauthToken)
      → request_new_external_oauth_token world token_url client_id client_secret custom_scope
          identity_pool_id client
        ≡ ok given
      → MadeOf client given
  unfolding request_new_external_oauth_token
  request_new-MadeOf none given h = absurd (cc)
  request_new-MadeOf (some handle) given h =
      elim (Option-cases
        (build_external_oauth_request world token_url client_id client_secret custom_scope)) [
          | inl bad ↦ absurd (let h1 = rw (bad, request_new_external_oauth_token) at h in cc)
          | inr (req, built) ↦
              replied (world.send handle req) (some handle) given
                (rw (built, request_new_external_oauth_token) at h)
        ]

-- Above 0, and at most so many seconds as an int64 of nanoseconds holds.
abbrev pub IsLifetime : ℤ → Type 0
IsLifetime (pos n) = (0 < n) × (n < 9223372037)
IsLifetime (negsuc n) = ⊥

-- Every number that a decoded reply has as the lifetime is above 0, and so many seconds fit into
-- a `time.Duration`.
abbrev pub HasExternalLifetimes : World → Type 0
HasExternalLifetimes world =
    (raw : List ℕ) (reply : TokenReply) (printed : String) (whole : ℤ)
    → world.unmarshal raw ≡ some reply
    → reply.expires_in ≡ some (number printed whole)
    → IsLifetime whole

-- The zero time never counts as valid.
is_current_zero : (now : ℕ) → is_current 0 now ≡ false
unfolding is_current
is_current_zero now = refl

-- What the lifetime of a reply says of the time until which a token is valid.
unexpired_of :
    (expires_in : Option Json) (issued now valid_until : ℕ) (expires_in_seconds : String)
    → ((printed : String) (whole : ℤ) → expires_in ≡ some (number printed whole) → IsLifetime whole)
    → expiry_of expires_in issued ≡ ok (expires_in_seconds, valid_until)
    → is_current valid_until now ≡ true
    → (n : ℕ) × (expires_in ≡ some (number expires_in_seconds (pos n)))
      × (now < issued + n * second)
      × (180 < n → now + external_token_expiration_buffer ≤ issued + n * second)
unfolding expiry_of valid_until_of
unexpired_of none issued now valid_until expires_in_seconds lifetime set current =
    let until : valid_until ≡ 0 = sym (ap (λ e. e.1) (ok_inj set)) in
    absurd
      (false≢true (sym (is_current_zero now) ∙ sym (ap (λ t. is_current t now) until) ∙ current))
unexpired_of (some (number printed (negsuc n))) issued now valid_until expires_in_seconds lifetime
      set current =
    absurd (lifetime printed (negsuc n) refl)
unexpired_of (some (number printed (pos n))) issued now valid_until expires_in_seconds lifetime set
      current =
    let (positive, small) = lifetime printed (pos n) refl in
    let same = ok_inj set in
    let fits = times_int64-fits n second (omega arith) in
    let until = sym (ap (valid_until_of issued) fits) ∙ ap (λ e. e.1) same in
    let bounds =
      is_current-expiration_buffer external_token_expiration_buffer issued (n * second) now
        (omega arith) (omega arith) (ap (λ t. is_current t now) until ∙ current) in
    (n, ap (λ e. some (number e.0 (pos n))) same, bounds.0, λ h. bounds.1 (omega arith))
unexpired_of (some (text t)) issued now valid_until expires_in_seconds lifetime set current =
    absurd (cc)
unexpired_of (some other) issued now valid_until expires_in_seconds lifetime set current =
    absurd (cc)

-- At any time at which a new external token counts as valid, there is a decoded reply with the
-- lifetime that the token records, and this is not over, and has three minutes left if it is above
-- three minutes, if the lifetimes of the decoded replies are above 0 and fit into a `time.Duration`.
pub external_token_unexpired :
    (world : World) (token_url client_id client_secret custom_scope identity_pool_id : String)
    (client : Option Handle) (given : OauthToken) (now : ℕ)
    → HasExternalLifetimes world
    → request_new_external_oauth_token world token_url client_id client_secret custom_scope
        identity_pool_id client
      ≡ ok given
    → validate_current_external_oauth_token (some given) now ≡ true
    → (raw : List ℕ) × (reply : TokenReply) × (whole : ℕ) × (world.unmarshal raw ≡ some reply)
      × (reply.expires_in ≡ some (number given.expires_in_seconds (pos whole)))
      × (now < world.clock.external_issued + whole * second)
      × (180 < whole
          → now + external_token_expiration_buffer ≤ world.clock.external_issued + whole * second)
unfolding validate_current_external_oauth_token
external_token_unexpired world token_url client_id client_secret custom_scope identity_pool_id
      client given now lifetimes requested current =
    let (raw, reply, decoded, set, _, _, _, _, _, _) =
      request_new-MadeOf world custom_scope identity_pool_id token_url client_id client_secret
        client given requested in
    let (whole, same, unexpired, left) =
      unexpired_of reply.expires_in world.clock.external_issued now given.valid_until
        given.expires_in_seconds (λ printed whole h. lifetimes raw reply printed whole decoded h)
        set current in
    (raw, reply, whole, decoded, same, unexpired, left)
