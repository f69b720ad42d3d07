-- ===== src/Authentication/Verified.antt =====
-- What a success of authenticate of src/tateyama/authentication/authenticator.cpp rests on.
use tateyama_bootstrap.Prelude.{
  ℕ, ◌≡◌, ◌≢◌, refl, sym, ap, ◌∙◌, ◌<◌, ◌⊎◌, inl, inr, [], ◌∷◌, Bool, true, false, not, ◌&&◌, ◌==◌,
  Option, none, some, ltb→lt, Bool-cases, if-true, if-false, if◌then◌else◌,
}
use tateyama_bootstrap.Authentication.{
  Text, Attempt, gives, raises, endless, ◌>>=◌, empty, Flags, World, Handler, Credential, not_set,
  encrypted_credential, remember_me_credential, auth_options, add_credential,
}
use tateyama_bootstrap.Authentication.Service.{
  Request, encryption_key, verify, issue_encrypted, Fetched, no_response, invalid_argument,
  response, Claims, Url, Service, key_in, key_type, key_data, is_rsa, verified, get_encryption_key,
  check_username, tsurugi_auth_name, expiration_time, before, accepted, check_claims,
  check_credential, failure, guarded, port_of, key_option, authenticate_with, Section, at_port,
  at_url, turned_off, authenticate,
}
use tateyama_bootstrap.Authentication.Names.{Valid, check_username-gives}

-- The name in a token is a valid name of a user.
abbrev pub Named : Option Claims → Type 0
Named claims = (name : Text) × (tsurugi_auth_name claims ≡ some name) × Valid name

-- The service has taken the credential, and a token that the key opens has a valid name; a token that
-- the user gives is not expired.
abbrev pub Proven : Service → (Request → Fetched) → Text → Credential → Type 0
Proven s ask key not_set = ⊥
Proven s ask key (encrypted_credential c) =
    (token : Text) × (verified s (ask (issue_encrypted c)) ≡ gives token)
    × Named (s.decode token key)
Proven s ask key (remember_me_credential t) =
    (token : Text) × (verified s (ask (verify t)) ≡ gives token)
    × ((exp : ℕ) × (expiration_time (s.decode t key) ≡ some exp) × (s.now < exp))
    × Named (s.decode t key)

abbrev pub Authenticated : World → Flags → Service → (Request → Fetched) → Handler → Type 0
Authenticated w f s ask h =
    (key : Text) × (chosen : Handler) × (c : Credential) × (get_encryption_key s
        (ask encryption_key)
      ≡ gives key)
    × (key ≢ [])
    × (auth_options w f h ≡ gives chosen)
    × (add_credential w chosen (gives (key_option key)) ≡ gives c)
    × Proven s ask key c

pub bind-gives {ℓ κ} :
    {A : Type ℓ} {B : Type κ} (r : Attempt A) (f : A → Attempt B) (b : B)
    → (r >>= f) ≡ gives b
    → (a : A) × (r ≡ gives a) × (f a ≡ gives b)
bind-gives (gives a) f b e = (a, refl, e)
bind-gives (raises x) f b e = cc
bind-gives endless f b e = cc

failure≢gives : {A : Type 0} (a : A) → failure ≢ gives a
failure≢gives a e = cc

accepted-some :
    (o : Option Text) (u : Unit {0}) → accepted o ≡ gives u → (name : Text) × (o ≡ some name)
accepted-some none u e = cc
accepted-some (some name) u e = (name, refl)

check_claims-Named :
    (claims : Option Claims) (u : Unit {0}) → check_claims claims ≡ gives u → Named claims
check_claims-Named claims u e =
    let (o, checked, rest) = bind-gives (check_username (tsurugi_auth_name claims)) accepted u e in
    let (name, q) = accepted-some o u rest in
    let (found, valid) =
      check_username-gives (tsurugi_auth_name claims) name (checked ∙ ap gives q) in
    (name, found, valid)

-- A test that guards a failure has passed.
passed :
    (b : Bool) (r : Attempt (Unit {0})) (u : Unit {0})
    → (if b then r else failure) ≡ gives u
    → (b ≡ true) × (r ≡ gives u)
passed true r u e = (refl, e)
passed false r u e = cc

not_passed :
    (b : Bool) (r : Attempt (Unit {0})) (u : Unit {0})
    → (if b then failure else r) ≡ gives u
    → (b ≡ false) × (r ≡ gives u)
not_passed true r u e = cc
not_passed false r u e = (refl, e)

before-some : (now : ℕ) (o : Option ℕ) → before now o ≡ true → (t : ℕ) × (o ≡ some t) × (now < t)
before-some now none e = cc
before-some now (some t) e = (t, refl, ltb→lt now t e)

check_credential-Proven :
    (s : Service) (ask : Request → Fetched) (key : Text) (c : Credential) (u : Unit {0})
    → check_credential s ask key c ≡ gives u
    → Proven s ask key c
unfolding check_credential
check_credential-Proven s ask key not_set u e = cc
check_credential-Proven s ask key (encrypted_credential c) u e =
    let (token, taken, rest) = bind-gives (verified s (ask (issue_encrypted c))) _ u e in
    let (full, checked) = not_passed (empty key) _ u rest in
    (token, taken, check_claims-Named (s.decode token key) u checked)
check_credential-Proven s ask key (remember_me_credential t) u e =
    let (token, taken, rest) = bind-gives (verified s (ask (verify t))) _ u e in
    let (full, timely) = not_passed (empty key) _ u rest in
    let (early, checked) = passed (before s.now (expiration_time (s.decode t key))) _ u timely in
    (token, taken, before-some s.now _ early, check_claims-Named (s.decode t key) u checked)

key_in-full : (kind data_of : Option Text) (key : Text) → key_in kind data_of ≡ gives key → key ≢ []
key_in-full none d key e q = cc
key_in-full (some k) none key e q = cc
key_in-full (some []) (some []) key e q = cc
key_in-full (some (k ∷ ks)) (some []) key e q = cc
key_in-full (some k) (some (x ∷ xs)) key e q = elim (Bool-cases (not (empty k) && is_rsa k)) [
  | inl t ↦ cc
  | inr t ↦ cc
]

get_encryption_key-full :
    (s : Service) (r : Fetched) (key : Text) → get_encryption_key s r ≡ gives key → key ≢ []
unfolding get_encryption_key
get_encryption_key-full s no_response key e = cc
get_encryption_key-full s invalid_argument key e = cc
get_encryption_key-full s (response status body) key e = elim (Bool-cases (status == 200)) [
  | inl t ↦
      key_in-full (s.member body key_type) (s.member body key_data) key (sym (if-true _ _ t) ∙ e)
  | inr t ↦ cc
]

authenticate_with-Authenticated :
    (w : World) (f : Flags) (s : Service) (ask : Request → Fetched) (h : Handler) (u : Unit {0})
    → authenticate_with w f s ask h ≡ gives u
    → Authenticated w f s ask h
unfolding authenticate_with
authenticate_with-Authenticated w f s ask h u e =
    let (key, found, e₁) = bind-gives (get_encryption_key s (ask encryption_key)) _ u e in
    let (chosen, took, e₂) = bind-gives (auth_options w f h) _ u e₁ in
    let (c, added, e₃) = bind-gives (add_credential w chosen (gives (key_option key))) _ u e₂ in
    (
      key,
      chosen,
      c,
      found,
      get_encryption_key-full s (ask encryption_key) key found,
      took,
      added,
      check_credential-Proven s ask key c u e₃,
    )

guarded-gives : (r : Attempt (Unit {0})) (u : Unit {0}) → guarded r ≡ gives u → r ≡ gives u
guarded-gives (gives a) u e = e
guarded-gives (raises x) u e = cc
guarded-gives endless u e = cc

at_port-Authenticated :
    (w : World) (f : Flags) (s : Service) (h : Handler) (url : Url) (o : Option ℕ) (u : Unit {0})
    → at_port w f s h url o ≡ gives u
    → (port : ℕ) × (o ≡ some port) × Authenticated w f s (s.fetch url.domain port url.path) h
at_port-Authenticated w f s h url none u e = cc
at_port-Authenticated w f s h url (some port) u e = (
  port,
  refl,
  authenticate_with-Authenticated w f s (s.fetch url.domain port url.path) h u
      (guarded-gives _ u e),
)

-- What a success of authenticate means for a section of the configuration.
abbrev pub Granted : World → Flags → Service → Section → Handler → Type 0
Granted w f s section h =
    (section.enabled ≡ some false)
    ⊎ ((url : Text) × (port : ℕ) × (section.url ≡ some url)
        × (section.has_timeout ≡ true)
        × (port_of (s.parse_url url).port ≡ some port)
        × Authenticated w f s (s.fetch (s.parse_url url).domain port (s.parse_url url).path) h)

turned_off-some : (o : Option Bool) → turned_off o ≡ true → o ≡ some false
turned_off-some none e = cc
turned_off-some (some true) e = cc
turned_off-some (some false) e = refl

at_url-Authenticated :
    (w : World) (f : Flags) (s : Service) (h : Handler) (timeout : Bool) (o : Option Text)
    (u : Unit {0})
    → at_url w f s h timeout o ≡ gives u
    → (url : Text) × (port : ℕ) × (o ≡ some url)
      × (timeout ≡ true)
      × (port_of (s.parse_url url).port ≡ some port)
      × Authenticated w f s (s.fetch (s.parse_url url).domain port (s.parse_url url).path) h
at_url-Authenticated w f s h timeout none u e = cc
at_url-Authenticated w f s h false (some url) u e = cc
at_url-Authenticated w f s h true (some url) u e =
    let (port, found, rest) =
      at_port-Authenticated w f s h (s.parse_url url) (port_of (s.parse_url url).port) u e in
    (url, port, refl, refl, found, rest)

pub authenticate-Granted :
    (w : World) (f : Flags) (s : Service) (section : Section) (h : Handler)
    → authenticate w f s section h ≡ gives tt
    → Granted w f s section h
unfolding authenticate
authenticate-Granted w f s section h e = elim (Bool-cases (turned_off section.enabled)) [
  | inl t ↦ inl (turned_off-some section.enabled t)
  | inr t ↦
      inr
        (at_url-Authenticated w f s h section.has_timeout section.url tt (sym (if-false _ _ t) ∙ e))
]
