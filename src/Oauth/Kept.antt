-- ===== src/Oauth/Kept.antt =====
-- The renewal of the tokens of a session, and runs of renewals.
use terraform_provider_confl.Base.{
  ◌≤◌, ◌≡◌, refl, ap, ◌∙◌, true, Option, none, some, List, [], ◌∷◌, Option-cases, inl, inr,
}
use terraform_provider_confl.Oauth.{OauthError, World}
use terraform_provider_confl.Oauth.Tokens.{validate_current_sts_oauth_token}
use terraform_provider_confl.Oauth.Session.{
  Session, fetch_or_override_sts_oauth_token_from_api_context,
}
use terraform_provider_confl.Oauth.Validity.{HasLifetimes}
use terraform_provider_confl.Oauth.Renewal.{credentials, renewal}

module _ (world : World) (session left : Session) where
  -- After a renewal without an error the STS token is valid at the time of the check, if the replies
  -- of the server have lifetimes and the clock does not run backwards.
  pub renewal_succeeds-valid :
      fetch_or_override_sts_oauth_token_from_api_context world session ≡ some (none, left)
      → HasLifetimes world
      → world.clock.sts_checked ≤ world.clock.sts_issued
      → validate_current_sts_oauth_token left.sts_token world.clock.sts_checked ≡ true
  renewal_succeeds-valid step lifetimes before =
      let (kept, valid, unchanged) = renewal world session none left step in
      valid refl lifetimes before

  -- A renewal with an error leaves the STS token as it was.
  pub renewal_fails-keeps :
      (e : OauthError)
      → fetch_or_override_sts_oauth_token_from_api_context world session ≡ some (some e, left)
      → left.sts_token ≡ session.sts_token
  renewal_fails-keeps e step =
      let (kept, valid, unchanged) = renewal world session (some e) left step in
      unchanged (λ h. absurd (cc))

-- The session after a renewal in each of the worlds; an error is only logged.
unfoldable pub renew_all : List World → Session → Option Session
unfolding fetch_or_override_sts_oauth_token_from_api_context
renew_all [] session = some session
renew_all (world ∷ worlds) session =
    elim (fetch_or_override_sts_oauth_token_from_api_context world session) [
      | none ↦ none
      | some step ↦ renew_all worlds step.1
    ]

-- After any number of renewals, whether they succeed or not, the tokens are still renewed with the
-- token URL, the client's id and secret, the scope, the identity pools and the HTTP clients that the
-- session started with.
pub renew_all-credentials :
    (worlds : List World) (session left : Session)
    → renew_all worlds session ≡ some left
    → credentials left ≡ credentials session
unfolding renew_all
renew_all-credentials [] session left h = ap credentials (cc)
renew_all-credentials (world ∷ worlds) session left h =
    elim (Option-cases (fetch_or_override_sts_oauth_token_from_api_context world session)) [
      | inl panics ↦ absurd (let h1 = rw (panics, renew_all) at h in cc)
      | inr ((e, next), step) ↦
          let (kept, valid, unchanged) = renewal world session e next step in
          renew_all-credentials worlds next left (rw (step, renew_all) at h) ∙ kept
    ]
