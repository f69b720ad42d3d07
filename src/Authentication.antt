-- ===== src/Authentication.antt =====
-- The choice and the check of a credential, of src/tateyama/authentication. OpenSSL, the JWT library,
-- the HTTP client, the JSON library and the regular expression for URLs are arguments, and so are the
-- clock and what the user types. Texts are lists of bytes. A configuration that cannot be read, and an
-- interrupt while the user types, are left out.
pub mod Service
pub mod Names
pub mod Options
pub mod Verified
pub mod Granting
pub mod Issue
pub mod Issued
mod Tests
use tateyama_bootstrap.Prelude.{
  ℕ, ◌+◌, ◌-◌, ◌*◌, ◌^◌, ◌==◌, List, [], ◌∷◌, ◌++◌, Bool, true, false, not, ◌&&◌, ◌||◌, Option,
  none, some, length, leb, ltb, if◌then◌else◌,
}
use tateyama_bootstrap.Reason.{Reason, authentication_failure}

abbrev pub Text : Type 0
Text = List ℕ

-- `tgctl::runtime_error`, and the other exceptions.
pub data Exception : Type 0 where
  runtime : Reason → Exception
  standard : Exception

-- An operation gives a value, throws, or goes on forever.
pub data Attempt {ℓ} (A : Type ℓ) : Type ℓ where
  gives : A → Attempt A
  raises : Exception → Attempt A
  endless : Attempt A

infixl 5 ◌>>=◌
abbrev pub ◌>>=◌ {ℓ κ} : {A : Type ℓ} {B : Type κ} → Attempt A → (A → Attempt B) → Attempt B
gives a >>= f = f a
raises e >>= f = raises e
endless >>= f = endless

abbrev pub empty : Text → Bool
empty [] = true
empty (c ∷ cs) = false

abbrev pub is_some {ℓ} : {A : Type ℓ} → Option A → Bool
is_some none = false
is_some (some a) = true

-- The options of the command line: `auth` is FLAGS__auth, which --no-auth clears, and `overwritable` is
-- FLAGS__overwrite, which --no-overwrite clears; an expiration is a size and a sign.
pub record Flags : Type 0 where
  pub user : Text
  pub auth_token : Text
  pub credentials : Text
  pub auth : Bool
  pub overwrite : Bool
  pub overwritable : Bool
  pub expiration : ℕ
  pub negative : Bool

-- `credential_handler`.
pub data CredentialType : Type 0 where
  not_defined no_auth user_password auth_token file disabled : CredentialType

pub record Handler : Type 0 where
  pub type : CredentialType
  pub json_text : Text
  pub auth_token : Text
  pub encrypted_credential : Text
  pub expiration : ℕ
  pub expiration_date : Text

abbrev pub minutes_of_session : ℕ
minutes_of_session = 300

abbrev pub new_handler : Handler
new_handler = record {
  type = not_defined;
  json_text = [];
  auth_token = [];
  encrypted_credential = [];
  expiration = minutes_of_session;
  expiration_date = [];
}

-- The credential in the message to the server.
pub data Credential : Type 0 where
  not_set : Credential
  encrypted_credential : Text → Credential
  remember_me_credential : Text → Credential

-- What the process finds outside: the configuration, the terminal, the environment, the files, and
-- the text of the time that lies so many minutes ahead.
pub record World : Type 0 where
  pub enabled : Option Bool
  pub typed : Text
  pub token_variable : Option Text
  pub home : Option Text
  pub contents : Text → Option Text
  pub json : Text → Text → Option Text → Text
  pub date_after : ℕ → Text
  pub encrypt : Text → Text → Attempt Text

abbrev pub newline : ℕ
newline = 10

abbrev pub onto : ℕ → Attempt Text → Attempt Text
onto c rest = rest >>= λ cs. gives (c ∷ cs)

-- `prompt` reads up to the end of a line; at the end of the input it goes on reading.
unfoldable pub prompt : Text → Attempt Text
prompt [] = endless
prompt (c ∷ cs) = let rest = prompt cs in if c == newline then gives [] else onto c rest

-- `std::getline`.
unfoldable pub first_line : Text → Text
first_line [] = []
first_line (c ∷ cs) = let rest = first_line cs in if c == newline then [] else c ∷ rest

-- `operator/=` for a name that is not absolute.
unfoldable pub ends_with_slash : Text → Bool
ends_with_slash [] = true
ends_with_slash (c ∷ []) = c == 47
ends_with_slash (c ∷ d ∷ cs) = ends_with_slash (d ∷ cs)

unfoldable pub join : Text → Text → Text
unfolding ends_with_slash
join path name = if ends_with_slash path then path ++ name else path ++ 47 ∷ name

-- `.tsurugidb` and `credentials.key`.
abbrev pub directory_name : Text
directory_name = 46 ∷ 116 ∷ 115 ∷ 117 ∷ 114 ∷ 117 ∷ 103 ∷ 105 ∷ 100 ∷ 98 ∷ []

abbrev pub key_name : Text
key_name = 99 ∷ 114 ∷ 101 ∷ 100 ∷ 101 ∷ 110 ∷ 116 ∷ 105 ∷ 97 ∷ 108 ∷ 115 ∷ 46 ∷ 107 ∷ 101 ∷ 121 ∷ []

abbrev pub default_path_in : Option Text → Option Text
default_path_in none = none
default_path_in (some home) = some (join (join home directory_name) key_name)

unfoldable pub default_credential_path : World → Option Text
unfolding join ends_with_slash
default_credential_path w = default_path_in w.home

abbrev pub set_encrypted_credential : Text → Handler → Handler
set_encrypted_credential text h = record h { type = file; encrypted_credential = text }

abbrev pub set_read : Option Text → Handler → Handler
set_read none h = record h { type = file }
set_read (some text) h =
    if empty (first_line text)
    then record h { type = file }
    else set_encrypted_credential (first_line text) (record h { type = file })

unfoldable pub set_file_credential : World → Text → Handler → Handler
unfolding first_line
set_file_credential w path h = set_read (w.contents path) h

unfoldable pub set_auth_token : Text → Handler → Handler
set_auth_token token h = record h { type = auth_token; auth_token = token }

unfoldable pub set_expiration : ℕ → Handler → Handler
set_expiration days h = record h { expiration = days * 24 * 60 }

-- `get_json_text` for a user and a password, which leaves the date of the expiration in the handler.
unfoldable pub set_user_password : World → Text → Text → Handler → Handler
set_user_password w user password h =
    if ltb 0 h.expiration
    then record h {
      type = user_password;
      json_text = w.json user password (some (w.date_after h.expiration));
      expiration_date = w.date_after h.expiration;
    }
    else record h { type = user_password; json_text = w.json user password none }

unfoldable pub check_not_more_than_one : Flags → Bool
check_not_more_than_one f =
    if not (empty f.user) && (not (empty f.auth_token) || (not (empty f.credentials) || not f.auth))
    then false
    else if not (empty f.auth_token) && (not (empty f.credentials) || not f.auth)
    then false
    else if not (empty f.credentials) && not f.auth
    then false
    else true

-- What is taken where no option gives a credential.
abbrev pub by_default_path : World → Handler → Option Text → Handler
by_default_path w h none = h
by_default_path w h (some path) = set_file_credential w path h

abbrev pub by_environment : World → Handler → Option Text → Handler
by_environment w h (some token) = set_auth_token token h
by_environment w h none = by_default_path w h (default_credential_path w)

abbrev pub enabled_in : Option Bool → Bool
enabled_in none = false
enabled_in (some b) = b

unfoldable pub auth_options : World → Flags → Handler → Attempt Handler
unfolding check_not_more_than_one prompt set_user_password set_auth_token set_file_credential
    first_line default_credential_path join ends_with_slash
auth_options w f h =
    if not (enabled_in w.enabled)
    then gives (record h { type = disabled })
    else if not (check_not_more_than_one f)
    then raises (runtime authentication_failure)
    else if not f.auth
    then gives (record h { type = no_auth })
    else if not (empty f.user)
    then prompt w.typed >>= (λ password. gives (set_user_password w f.user password h))
    else if not (empty f.auth_token)
    then gives (set_auth_token f.auth_token h)
    else if not (empty f.credentials)
    then gives (set_file_credential w f.credentials h)
    else gives (by_environment w h w.token_variable)

-- `add_credential`, where the function that finds the key is called for a password only.
abbrev pub sealed : World → Text → Option Text → Attempt Credential
sealed w text none = raises (runtime authentication_failure)
sealed w text (some key) = w.encrypt key text >>= λ c. gives (encrypted_credential c)

abbrev pub add_by_type :
    World → Handler → Attempt (Option Text) → CredentialType → Attempt Credential
add_by_type w h key_func disabled = gives not_set
add_by_type w h key_func no_auth = gives not_set
add_by_type w h key_func user_password = key_func >>= sealed w h.json_text
add_by_type w h key_func auth_token = gives (remember_me_credential h.auth_token)
add_by_type w h key_func file = gives (encrypted_credential h.encrypted_credential)
add_by_type w h key_func not_defined = raises (runtime authentication_failure)

unfoldable pub add_credential : World → Handler → Attempt (Option Text) → Attempt Credential
add_credential w h key_func = add_by_type w h key_func h.type
