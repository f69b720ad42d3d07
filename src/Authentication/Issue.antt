-- ===== src/Authentication/Issue.antt =====
-- authenticator::credentials of src/tateyama/authentication/authenticator.cpp, and the handshake of
-- src/tateyama/transport/transport.h that gives it the encrypted credential.
use tateyama_bootstrap.Prelude.{
  ℕ, ◌==◌, List, [], ◌∷◌, ◌++◌, Bool, not, ◌&&◌, ◌||◌, Option, none, some, ltb, if◌then◌else◌,
}
use tateyama_bootstrap.Reason.{connection_failure}
use tateyama_bootstrap.Process.Os.{ReturnCode, ok, err}
use tateyama_bootstrap.Authentication.{
  Text, runtime, Attempt, gives, raises, endless, ◌>>=◌, empty, Flags, Handler, new_handler,
  Credential, not_set, encrypted_credential, remember_me_credential, World, newline, prompt, join,
  directory_name, key_name, default_credential_path, set_expiration, auth_options, add_credential,
}

-- What the server answers to the two requests of a handshake.
pub data KeyReply : Type 0 where
  key_success : Text → KeyReply
  key_error : KeyReply

pub data HandshakeReply : Type 0 where
  welcome : ℕ → HandshakeReply
  refusal : HandshakeReply

pub record Peer : Type 0 where
  pub connect : Attempt (Unit {0})
  pub encryption_key : Attempt (Option KeyReply)
  pub handshake : Credential → Attempt (Option HandshakeReply)

abbrev pub key_of : Option KeyReply → Attempt (Option Text)
key_of none = gives none
key_of (some (key_success key)) = gives (some key)
key_of (some key_error) = gives none

abbrev pub encrypted_part : Credential → Text
encrypted_part not_set = []
encrypted_part (encrypted_credential c) = c
encrypted_part (remember_me_credential t) = []

-- What a transport keeps of its session.
pub record Session : Type 0 where
  pub session_id : ℕ
  pub encrypted_credential : Text

abbrev pub welcomed : Credential → Option HandshakeReply → Attempt Session
welcomed c none = raises (runtime connection_failure)
welcomed c (some refusal) = raises (runtime connection_failure)
welcomed c (some (welcome id)) =
    gives (record { session_id = id; encrypted_credential = encrypted_part c })

-- The constructor of a transport, which has a credential handler of its own.
unfoldable pub open_session : World → Flags → Peer → Attempt Session
unfolding auth_options add_credential
open_session w f p = p.connect >>= λ connected. auth_options w f new_handler >>= λ h.
    add_credential w h (p.encryption_key >>= key_of) >>= λ c. p.handshake c >>= welcomed c

-- What the file system answers.
pub record Disk : Type 0 where
  pub exists : Text → Bool
  pub is_directory : Text → Bool
  pub is_regular_file : Text → Bool
  pub can_create : Text → Bool
  pub can_open : Text → Bool
  pub can_restrict : Text → Bool

-- What the command does to the files, in order.
pub data Effect : Type 0 where
  created : Text → Effect
  written : Text → Text → Effect
  restricted : Text → Effect

-- The command returns, an exception leaves it, or it waits for input forever.
pub data Issued : Type 0 where
  returns : ReturnCode → List Effect → Issued
  escapes : Issued
  waits : Issued

abbrev pub first_effect : Effect → Issued → Issued
first_effect e (returns c es) = returns c (e ∷ es)
first_effect e escapes = escapes
first_effect e waits = waits

abbrev pub contents_of : Text → Text → Text
contents_of text date = text ++ newline ∷ (if empty date then [] else date ++ newline ∷ [])

-- The file is written, and then `permissions` is called without the error code that is tested behind
-- it: a failure is an exception.
unfoldable pub write_key : Disk → Text → Text → Text → Issued
write_key d path text date =
    if empty text
    then returns err []
    else if not (d.can_open path)
    then returns err []
    else if d.can_restrict path
    then returns ok (written path (contents_of text date) ∷ restricted path ∷ [])
    else returns err (written path (contents_of text date) ∷ [])

abbrev pub with_session : Disk → Text → Text → Attempt Session → Issued
with_session d path date (gives s) = write_key d path s.encrypted_credential date
with_session d path date (raises e) = returns err []
with_session d path date endless = waits

-- The date is that of the command's own handler.
unfoldable pub issue_for : World → Flags → Peer → Disk → Text → Handler → Issued
unfolding open_session write_key set_expiration
issue_for w f p d path h =
    with_session d path (set_expiration f.expiration h).expiration_date (open_session w f p)

-- What is left to read behind a line.
unfoldable pub after_line : Text → Text
after_line [] = []
after_line (c ∷ cs) = let rest = after_line cs in if c == newline then cs else rest

abbrev pub with_user : World → Flags → Peer → Disk → Text → Handler → Attempt Text → Issued
with_user w f p d path h (gives user) =
    issue_for (record w { typed = after_line w.typed }) (record f { user = user }) p d path h
with_user w f p d path h (raises e) = escapes
with_user w f p d path h endless = waits

abbrev pub max_expiration : ℕ
max_expiration = 365

-- The four checks on the options, which all end alike.
unfoldable pub refused : Flags → Bool
refused f =
    (f.negative || ltb max_expiration f.expiration)
    || (not (empty f.credentials)
        || (not (empty f.auth_token) || (not f.overwritable && f.overwrite)))

abbrev pub issue_named : World → Flags → Peer → Disk → Text → Handler → Issued
issue_named w f p d path h =
    if empty f.user then with_user w f p d path h (prompt w.typed) else issue_for w f p d path h

abbrev pub issue_fresh : World → Flags → Peer → Disk → Text → Handler → Issued
issue_fresh w f p d path h =
    if not (f.overwrite && f.overwritable) && d.exists path
    then returns err []
    else issue_named w f p d path h

unfoldable pub issue_at : World → Flags → Peer → Disk → Text → Handler → Issued
unfolding issue_for prompt after_line refused
issue_at w f p d path h = if refused f then returns err [] else issue_fresh w f p d path h

-- `credentials(file_name)`.
unfoldable pub issue_to_file : World → Flags → Peer → Disk → Text → Handler → Issued
unfolding issue_at
issue_to_file w f p d path h =
    if d.exists path && not (d.is_regular_file path)
    then returns err []
    else issue_at w f p d path h

-- `credentials()`.
abbrev pub issue_in_home : World → Flags → Peer → Disk → Text → Text → Handler → Issued
issue_in_home w f p d parent path h =
    if d.exists parent
    then if d.is_directory parent then issue_at w f p d path h else returns err []
    else if d.can_create parent
    then first_effect (created parent) (issue_at w f p d path h)
    else escapes

abbrev pub by_home : World → Flags → Peer → Disk → Handler → Option Text → Issued
by_home w f p d h none = returns err []
by_home w f p d h (some home) =
    issue_in_home w f p d (join home directory_name) (join (join home directory_name) key_name) h

unfoldable pub issue_by_default : World → Flags → Peer → Disk → Handler → Issued
unfolding issue_at join default_credential_path
issue_by_default w f p d h = by_home w f p d h w.home
