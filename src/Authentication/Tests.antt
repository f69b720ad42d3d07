-- ===== src/Authentication/Tests.antt =====
-- Runs of the choice and the check of a credential.
use tateyama_bootstrap.Prelude.{
  ◌≡◌, refl, [], ◌∷◌, true, false, Option, none, some, ◌==◌, if◌then◌else◌, arith,
}
use tateyama_bootstrap.Process.Os.{ok}
use tateyama_bootstrap.Authentication.{
  Text, gives, Flags, World, new_handler, check_not_more_than_one, auth_options, add_credential,
  prompt,
}
use tateyama_bootstrap.Authentication.Service.{
  Request, encryption_key, verify, issue_encrypted, Fetched, response, Service, Section,
  check_username, authenticate, port_of, get_encryption_key, check_credential, authenticate_with,
}
use tateyama_bootstrap.Authentication.Names.{Valid, check_username-Valid}
use tateyama_bootstrap.Authentication.Verified.{Granted}
use tateyama_bootstrap.Authentication.Granting.{authenticate_iff}
use tateyama_bootstrap.Authentication.Issue.{
  Peer, key_success, welcome, Disk, written, restricted, returns, issue_to_file, issue_at,
}
use tateyama_bootstrap.Authentication.Issued.{issue_at-expiration}

-- A user `u` with the password `p`.
abbrev flags : Flags
flags = record {
  user = 117 ∷ [];
  auth_token = [];
  credentials = [];
  auth = true;
  overwrite = false;
  overwritable = true;
  expiration = 90;
  negative = false;
}

abbrev world : World
world = record {
  enabled = some true;
  typed = 112 ∷ 10 ∷ [];
  token_variable = none;
  home = some (47 ∷ 104 ∷ []);
  contents = λ path. none;
  json = λ user password date. 123 ∷ [];
  date_after = λ minutes. minutes ∷ [];
  encrypt = λ key text. gives (101 ∷ text);
}

-- The service answers each request, with 1 for the key and for the token.
abbrev answer : Request → Fetched
answer encryption_key = response 200 (1 ∷ [])
answer (verify t) = response 200 (2 ∷ [])
answer (issue_encrypted c) = response 200 (2 ∷ [])

abbrev member_in : Text → Text → Option Text
member_in body (k ∷ e ∷ y ∷ u ∷ t ∷ name) = some (if t == 116 then 82 ∷ 83 ∷ 65 ∷ [] else 1 ∷ [])
member_in body name = none

abbrev service : Service
service = record {
  fetch = λ domain port path request. answer request;
  member = member_in;
  decode = λ token key. some (record { name = some (117 ∷ []); exp = none });
  parse_url = λ url. record { domain = 104 ∷ []; port = []; path = [] };
  now = 0;
}

abbrev section : Section
section = record { enabled = some true; has_timeout = true; url = some (104 ∷ []) }

authenticate-section : authenticate world flags service section new_handler ≡ gives tt
unfolding authenticate authenticate_with get_encryption_key auth_options check_not_more_than_one
    prompt add_credential check_credential check_username port_of
authenticate-section = refl

authenticate_iff_example :
    (authenticate world flags service section new_handler ≡ gives tt
      → Granted world flags service section new_handler)
    × (Granted world flags service section new_handler
        → authenticate world flags service section new_handler ≡ gives tt)
authenticate_iff_example = authenticate_iff world flags service section new_handler

-- A name with a blank inside.
abbrev name : Text
name = 97 ∷ 32 ∷ 98 ∷ []

check_username-Valid_example :
    (Valid name → check_username (some name) ≡ gives (some name))
    × (check_username (some name) ≡ gives (some name) → Valid name)
check_username-Valid_example = check_username-Valid name

abbrev peer : Peer
peer = record {
  connect = gives tt;
  encryption_key = gives (some (key_success (1 ∷ [])));
  handshake = λ c. gives (some (welcome 7));
}

abbrev disk : Disk
disk = record {
  exists = λ path. false;
  is_directory = λ path. false;
  is_regular_file = λ path. false;
  can_create = λ path. true;
  can_open = λ path. true;
  can_restrict = λ path. true;
}

issue_to_file-peer :
    issue_to_file world flags peer disk (102 ∷ []) new_handler
    ≡ returns ok (written (102 ∷ []) (101 ∷ 123 ∷ 10 ∷ []) ∷ restricted (102 ∷ []) ∷ [])
unfolding issue_to_file
issue_to_file-peer = refl

issue_at-expiration_example :
    issue_at world (record flags { expiration = 30 }) peer disk (102 ∷ []) new_handler
    ≡ issue_at world (record flags { expiration = 0 }) peer disk (102 ∷ []) new_handler
issue_at-expiration_example =
    issue_at-expiration world flags peer disk (102 ∷ []) new_handler 30 (omega arith)
