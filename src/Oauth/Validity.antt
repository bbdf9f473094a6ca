-- ===== src/Oauth/Validity.antt =====
-- When the tokens that Tokens requests count as valid.
use terraform_provider_confl.Base.{
  ℕ, ◌+◌, ◌-◌, ◌*◌, ◌≤◌, ◌<◌, ◌≡◌, refl, ap, ◌∙◌, true, false, Option, none, some, List, String,
  arith, Option-cases, inl, inr,
}
use terraform_provider_confl.Oauth.{Handle, StsToken, StsRequest, StsReply, ok, World}
use terraform_provider_confl.Oauth.Decimal.{parse_int, parse_int-itoa}
use terraform_provider_confl.Oauth.Tokens.{
  second, sts_token_expiration_buffer, expiration_buffer, is_current,
  validate_current_sts_oauth_token, requested_lifetime, sts_token_of, request_new_sts_oauth_token,
}

-- The buffer is below a lifetime that is not 0, and it is the whole buffer if that is shorter.
pub is_current-expiration_buffer :
    (buffer issued expiry_duration now : ℕ)
    → 0 < buffer
    → 1 < expiry_duration
    → is_current (issued + (expiry_duration - expiration_buffer buffer expiry_duration)) now ≡ true
    → (now < issued + expiry_duration)
      × (buffer < expiry_duration → now + buffer ≤ issued + expiry_duration)
unfolding is_current expiration_buffer
is_current-expiration_buffer buffer issued expiry_duration now positive long current =
    (ground arith, ground arith)

-- A token is valid when it is issued.
pub is_current-issued :
    (buffer issued expiry_duration now : ℕ)
    → 0 < expiry_duration
    → now ≤ issued
    → is_current (issued + (expiry_duration - expiration_buffer buffer expiry_duration)) now ≡ true
unfolding is_current expiration_buffer
is_current-issued buffer issued expiry_duration now long before = ground arith

-- The reply that a new STS token has been made of.
pub sts_reply_of :
    (world : World) (subject_token identity_pool_id : String) (expired_in_seconds : List ℕ)
    (client : Option Handle) (given : StsToken)
    → request_new_sts_oauth_token world subject_token identity_pool_id expired_in_seconds client
      ≡ ok given
    → (handle : Handle) × (request : StsRequest) × (resp : StsReply) × (client ≡ some handle)
      × (world.exchange handle request ≡ some resp)
      × (given ≡ sts_token_of world handle identity_pool_id resp)
unfolding request_new_sts_oauth_token
sts_reply_of world subject_token identity_pool_id expired_in_seconds none given requested =
    absurd (cc)
sts_reply_of world subject_token identity_pool_id expired_in_seconds (some handle) given requested =
    elim (Option-cases (requested_lifetime expired_in_seconds)) [
      | inl bad ↦ absurd (let h = rw (bad, request_new_sts_oauth_token) at requested in cc)
      | inr (lifetime, good) ↦
          let request : StsRequest = record {
            subject_token = subject_token;
            identity_pool_id = identity_pool_id;
            expires_in = lifetime;
          } in
          elim (Option-cases (world.exchange handle request)) [
            | inl bad ↦
                absurd (let h = rw (good, bad, request_new_sts_oauth_token) at requested in cc)
            | inr (resp, answered) ↦
                let h = rw (good, answered, request_new_sts_oauth_token) at requested in
                (handle, request, resp, refl, answered, cc)
          ]
    ]

-- The replies to a request for an STS token have a lifetime that is an int32 above 0.
abbrev pub HasLifetimes : World → Type 0
HasLifetimes world =
    (handle : Handle) (request : StsRequest) (resp : StsReply)
    → world.exchange handle request ≡ some resp
    → (0 < resp.expires_in) × (resp.expires_in < 2147483648)

-- At any time at which a new STS token counts as valid, the lifetime that it records, which reads as
-- a number of seconds, is not over, and has a minute left if it is above a minute.
pub sts_token_unexpired :
    (world : World) (subject_token identity_pool_id : String) (expired_in_seconds : List ℕ)
    (client : Option Handle) (given : StsToken) (now : ℕ)
    → HasLifetimes world
    → request_new_sts_oauth_token world subject_token identity_pool_id expired_in_seconds client
      ≡ ok given
    → validate_current_sts_oauth_token (some given) now ≡ true
    → (n : ℕ) × (parse_int given.expires_in_seconds ≡ some (false, n))
      × (now < world.clock.sts_issued + n * second)
      × (60 < n → now + sts_token_expiration_buffer ≤ world.clock.sts_issued + n * second)
unfolding validate_current_sts_oauth_token sts_token_of
sts_token_unexpired world subject_token identity_pool_id expired_in_seconds client given now
      lifetimes requested current =
    let (handle, request, resp, there, answered, same) =
      sts_reply_of world subject_token identity_pool_id expired_in_seconds client given requested in
    let (long, small) = lifetimes handle request resp answered in
    let bounds =
      is_current-expiration_buffer sts_token_expiration_buffer world.clock.sts_issued
        (resp.expires_in * second) now (omega arith) (omega arith) (rw same at current) in
    (
      resp.expires_in,
      ap (λ t. parse_int t.expires_in_seconds) same ∙ parse_int-itoa resp.expires_in small,
      bounds.0,
      λ h. bounds.1 (omega arith),
    )

-- A new STS token is valid when it is issued.
pub sts_token_issued :
    (world : World) (subject_token identity_pool_id : String) (expired_in_seconds : List ℕ)
    (client : Option Handle) (given : StsToken) (now : ℕ)
    → HasLifetimes world
    → request_new_sts_oauth_token world subject_token identity_pool_id expired_in_seconds client
      ≡ ok given
    → now ≤ world.clock.sts_issued
    → validate_current_sts_oauth_token (some given) now ≡ true
unfolding validate_current_sts_oauth_token sts_token_of
sts_token_issued world subject_token identity_pool_id expired_in_seconds client given now lifetimes
      requested before =
    let (handle, request, resp, there, answered, same) =
      sts_reply_of world subject_token identity_pool_id expired_in_seconds client given requested in
    let (long, small) = lifetimes handle request resp answered in
    ap (λ t. is_current t.valid_until now) same
    ∙ is_current-issued sts_token_expiration_buffer world.clock.sts_issued
        (resp.expires_in * second) now (omega arith) before
