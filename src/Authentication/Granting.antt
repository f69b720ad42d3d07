-- ===== src/Authentication/Granting.antt =====
-- When authenticate of src/tateyama/authentication/authenticator.cpp succeeds.
use tateyama_bootstrap.Prelude.{
  ◌≡◌, ◌≢◌, refl, ap, ◌∙◌, inl, inr, [], ◌∷◌, false, Option, lt→ltb, if-true, if-false,
  if◌then◌else◌, Bool-cases,
}
use tateyama_bootstrap.Authentication.{
  Text, Attempt, gives, ◌>>=◌, empty, Flags, World, Handler, Credential, not_set,
  encrypted_credential, remember_me_credential, auth_options, add_credential,
}
use tateyama_bootstrap.Authentication.Service.{
  Request, encryption_key, Fetched, Claims, Service, get_encryption_key, check_username,
  expiration_time, before, accepted, check_claims, check_credential, failure, guarded, key_option,
  authenticate_with, Section, at_port, at_url, turned_off, authenticate,
}
use tateyama_bootstrap.Authentication.Names.{check_username-Valid}
use tateyama_bootstrap.Authentication.Verified.{
  Named, Proven, Authenticated, Granted, authenticate-Granted,
}

full : (key : Text) → key ≢ [] → empty key ≡ false
full [] n = absurd (n refl)
full (c ∷ cs) n = refl

Named-check_claims : (claims : Option Claims) → Named claims → check_claims claims ≡ gives tt
Named-check_claims claims (name, found, v) =
    ap (λ o. check_username o >>= accepted) found
    ∙ ap (λ r. r >>= accepted) ((check_username-Valid name).0 v)

Proven-check_credential :
    (s : Service) (ask : Request → Fetched) (key : Text) (c : Credential)
    → key ≢ []
    → Proven s ask key c
    → check_credential s ask key c ≡ gives tt
unfolding check_credential
Proven-check_credential s ask key not_set n p = absurd p
Proven-check_credential s ask key (encrypted_credential c) n (token, taken, named) =
    ap (λ r. r >>= (λ t. if empty key then failure else check_claims (s.decode t key))) taken
    ∙ (if-false _ _ (full key n) ∙ Named-check_claims (s.decode token key) named)
Proven-check_credential s ask key (remember_me_credential t) n
      (token, taken, (exp, found, early), named) =
    ap
      (λ r. r >>= (λ u.
        if empty key
        then failure
        else if before s.now (expiration_time (s.decode t key))
        then check_claims (s.decode t key)
        else failure))
      taken
    ∙ (if-false _ _ (full key n)
        ∙ (if-true _ _ (ap (before s.now) found ∙ lt→ltb s.now exp early)
            ∙ Named-check_claims (s.decode t key) named))

bind_ap : {A B : Type 0} (r : Attempt A) (f : A → Attempt B) (a : A) → r ≡ gives a → (r >>= f) ≡ f a
bind_ap r f a e = ap (λ x. x >>= f) e

Authenticated-authenticate_with :
    (w : World) (f : Flags) (s : Service) (ask : Request → Fetched) (h : Handler)
    → Authenticated w f s ask h
    → authenticate_with w f s ask h ≡ gives tt
unfolding authenticate_with
Authenticated-authenticate_with w f s ask h (key, chosen, c, found, n, took, added, proven) =
    bind_ap (get_encryption_key s (ask encryption_key)) _ key found
    ∙ (bind_ap (auth_options w f h) _ chosen took
        ∙ (bind_ap (add_credential w chosen (gives (key_option key))) _ c added
            ∙ Proven-check_credential s ask key c n proven))

Granted-authenticate :
    (w : World) (f : Flags) (s : Service) (section : Section) (h : Handler)
    → Granted w f s section h
    → authenticate w f s section h ≡ gives tt
unfolding authenticate
Granted-authenticate w f s section h (inl off) = if-true _ _ (ap turned_off off)
Granted-authenticate w f s section h (inr (url, port, at, timed, found, granted)) =
    elim (Bool-cases (turned_off section.enabled)) [
      | inl t ↦ if-true _ _ t
      | inr t ↦
          if-false _ _ t
          ∙ (ap (at_url w f s h section.has_timeout) at
              ∙ (if-true _ _ timed
                  ∙ (ap (at_port w f s h (s.parse_url url)) found
                      ∙ ap guarded (
                          Authenticated-authenticate_with w f s
                            (s.fetch (s.parse_url url).domain port (s.parse_url url).path) h
                            granted))))
    ]

-- authenticate succeeds just if the configuration turns it off, or if it has a timeout and the service
-- at its URL has given a key and takes the chosen credential, and a token that the key opens has the
-- valid name of a user; a token that the user gives must not be expired.
pub authenticate_iff :
    (w : World) (f : Flags) (s : Service) (section : Section) (h : Handler)
    → (authenticate w f s section h ≡ gives tt → Granted w f s section h)
      × (Granted w f s section h → authenticate w f s section h ≡ gives tt)
authenticate_iff w f s section h =
    (authenticate-Granted w f s section h, Granted-authenticate w f s section h)
