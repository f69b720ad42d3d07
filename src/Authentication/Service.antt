-- ===== src/Authentication/Service.antt =====
-- authenticator::authenticate of src/tateyama/authentication/authenticator.cpp, with client.h and
-- token_handler.h.
use tateyama_bootstrap.Prelude.{
  ℕ, ◌-◌, ◌^◌, ◌==◌, [], ◌∷◌, Bool, true, false, not, ◌&&◌, ◌||◌, Option, none, some, length, leb,
  ltb, if◌then◌else◌,
}
use tateyama_bootstrap.Reason.{Reason, authentication_failure}
use tateyama_bootstrap.Session.{stol, digits, signed, unsigned}
use tateyama_bootstrap.Authentication.{
  Text, runtime, standard, Attempt, gives, raises, endless, ◌>>=◌, empty, Flags, Handler,
  Credential, not_set, encrypted_credential, remember_me_credential, World, auth_options,
  add_credential,
}

-- `authentication::client`: what comes of a request, with the texts of the exceptions left out.
pub data Request : Type 0 where
  encryption_key : Request
  verify : Text → Request
  issue_encrypted : Text → Request

pub data Fetched : Type 0 where
  no_response invalid_argument : Fetched
  response : ℕ → Text → Fetched

-- The authentication service at a host, a port and a path; a text member of a JSON document, if the
-- document is one and has it; and the name and the time in a token, if a key opens it.
pub record Claims : Type 0 where
  pub name : Option Text
  pub exp : Option ℕ

pub record Url : Type 0 where
  pub domain : Text
  pub port : Text
  pub path : Text

pub record Service : Type 0 where
  pub fetch : Text → ℕ → Text → Request → Fetched
  pub member : Text → Text → Option Text
  pub decode : Text → Text → Option Claims
  pub parse_url : Text → Url
  pub now : ℕ

-- The names of the members: `token`, `key_type` and `key_data`; and `RSA`.
abbrev pub token_member : Text
token_member = 116 ∷ 111 ∷ 107 ∷ 101 ∷ 110 ∷ []

abbrev pub key_type : Text
key_type = 107 ∷ 101 ∷ 121 ∷ 95 ∷ 116 ∷ 121 ∷ 112 ∷ 101 ∷ []

abbrev pub key_data : Text
key_data = 107 ∷ 101 ∷ 121 ∷ 95 ∷ 100 ∷ 97 ∷ 116 ∷ 97 ∷ []

abbrev pub is_rsa : Text → Bool
is_rsa (r ∷ s ∷ a ∷ []) = (r == 82) && ((s == 83) && (a == 65))
is_rsa text = false

abbrev pub token_in : Option Text → Attempt Text
token_in none = raises standard
token_in (some t) = if empty t then raises standard else gives t

-- `verify_token` and `verify_encrypted` end alike.
abbrev pub verified : Service → Fetched → Attempt Text
verified s no_response = raises standard
verified s invalid_argument = raises standard
verified s (response status body) =
    if status == 200 then token_in (s.member body token_member) else raises standard

abbrev pub key_in : Option Text → Option Text → Attempt Text
key_in none found = raises standard
key_in (some kind) none = raises standard
key_in (some kind) (some found) =
    if not (empty kind) && (not (empty found) && is_rsa kind) then gives found else raises standard

unfoldable pub get_encryption_key : Service → Fetched → Attempt Text
get_encryption_key s no_response = raises standard
get_encryption_key s invalid_argument = raises standard
get_encryption_key s (response status body) =
    if status == 200
    then key_in (s.member body key_type) (s.member body key_data)
    else raises standard

-- `check_username`.
abbrev pub is_space : ℕ → Bool
is_space c = (c == 32) || (leb 9 c && leb c 13)

abbrev pub is_name_char : ℕ → Bool
is_name_char c = (leb 32 c && leb c 126) || (leb 128 c && leb c 255)

unfoldable pub begins_with_space : Text → Bool
begins_with_space [] = false
begins_with_space (c ∷ cs) = is_space c

unfoldable pub ends_with_space : Text → Bool
ends_with_space [] = false
ends_with_space (c ∷ []) = is_space c
ends_with_space (c ∷ d ∷ cs) = ends_with_space (d ∷ cs)

unfoldable pub name_chars : Text → Bool
name_chars [] = true
name_chars (c ∷ cs) = is_name_char c && name_chars cs

abbrev pub maximum_username_length : ℕ
maximum_username_length = 1024

unfoldable pub check_username : Option Text → Attempt (Option Text)
unfolding begins_with_space ends_with_space name_chars
check_username none = gives none
check_username (some name) =
    if begins_with_space name
    then raises standard
    else if ends_with_space name
    then raises standard
    else if ltb maximum_username_length (length name)
    then raises standard
    else if name_chars name
    then gives (some name)
    else raises standard

-- `token_handler`.
abbrev pub tsurugi_auth_name : Option Claims → Option Text
tsurugi_auth_name none = none
tsurugi_auth_name (some claims) = claims.name

abbrev pub expiration_time : Option Claims → Option ℕ
expiration_time none = none
expiration_time (some claims) = claims.exp

abbrev pub before : ℕ → Option ℕ → Bool
before now none = false
before now (some t) = ltb now t

abbrev pub failure : {A : Type 0} → Attempt A
failure = raises (runtime authentication_failure)

abbrev pub accepted : Option Text → Attempt (Unit {0})
accepted none = failure
accepted (some name) = gives tt

abbrev pub check_claims : Option Claims → Attempt (Unit {0})
check_claims claims = check_username (tsurugi_auth_name claims) >>= accepted

-- The switch on the credential, with the service at hand and the key that it has given.
unfoldable pub check_credential :
    Service → (Request → Fetched) → Text → Credential → Attempt (Unit {0})
unfolding check_username begins_with_space ends_with_space name_chars
check_credential s ask key (encrypted_credential c) =
    verified s (ask (issue_encrypted c)) >>= λ token.
    if empty key then failure else check_claims (s.decode token key)
check_credential s ask key (remember_me_credential t) = verified s (ask (verify t)) >>= λ token.
    if empty key
    then failure
    else if before s.now (expiration_time (s.decode t key))
    then check_claims (s.decode t key)
    else failure
check_credential s ask key not_set = failure

-- Each exception becomes a failure of the authentication.
abbrev pub guarded : {A : Type 0} → Attempt A → Attempt A
guarded (gives a) = gives a
guarded (raises e) = failure
guarded endless = endless

-- `std::stoi`, as the bits of the number.
abbrev pub in_int : Option ℕ → Option ℕ
in_int none = none
in_int (some n) = if ltb n (2 ^ 31) || leb (2 ^ 64 - 2 ^ 31) n then some n else none

unfoldable pub port_of : Text → Option ℕ
unfolding stol signed unsigned digits
port_of [] = some 80
port_of (c ∷ cs) = in_int (stol (c ∷ cs))

abbrev pub key_option : Text → Option Text
key_option key = if empty key then none else some key

unfoldable pub authenticate_with :
    World → Flags → Service → (Request → Fetched) → Handler → Attempt (Unit {0})
unfolding get_encryption_key auth_options add_credential check_credential
authenticate_with w f s ask h = get_encryption_key s (ask encryption_key) >>= λ key.
    auth_options w f h >>= λ chosen.
    add_credential w chosen (gives (key_option key)) >>= λ c. check_credential s ask key c

-- The section of the configuration, whose timeout the HTTP client takes.
pub record Section : Type 0 where
  pub enabled : Option Bool
  pub has_timeout : Bool
  pub url : Option Text

abbrev pub at_port : World → Flags → Service → Handler → Url → Option ℕ → Attempt (Unit {0})
at_port w f s h url none = raises standard
at_port w f s h url (some port) =
    guarded (authenticate_with w f s (s.fetch url.domain port url.path) h)

abbrev pub at_url : World → Flags → Service → Handler → Bool → Option Text → Attempt (Unit {0})
at_url w f s h timeout none = raises (runtime Reason.server)
at_url w f s h timeout (some url) =
    if timeout
    then at_port w f s h (s.parse_url url) (port_of (s.parse_url url).port)
    else raises (runtime Reason.server)

abbrev pub turned_off : Option Bool → Bool
turned_off none = false
turned_off (some b) = not b

unfoldable pub authenticate : World → Flags → Service → Section → Handler → Attempt (Unit {0})
unfolding authenticate_with port_of
authenticate w f s section h =
    if turned_off section.enabled then gives tt else at_url w f s h section.has_timeout section.url
