-- ===== src/Authentication/Options.antt =====
-- The options for a credential, of src/tateyama/authentication/credential_handler.cpp.
use tateyama_bootstrap.Prelude.{
  ℕ, ◌≡◌, refl, ◌+◌, Bool, true, false, not, ◌&&◌, ◌||◌, leb, if◌then◌else◌,
}
use tateyama_bootstrap.Authentication.{empty, Flags, check_not_more_than_one}

abbrev pub one_if : Bool → ℕ
one_if b = if b then 1 else 0

-- How many of --user, --auth_token, --credentials and --no-auth are given.
abbrev pub given_options : Flags → ℕ
given_options f =
    one_if (not (empty f.user))
    + one_if (not (empty f.auth_token))
    + one_if (not (empty f.credentials))
    + one_if (not f.auth)

-- The check on the options tells whether at most one of the four is given.
pub check_not_more_than_one_lem : (f : Flags) → check_not_more_than_one f ≡ leb (given_options f) 1
unfolding check_not_more_than_one
check_not_more_than_one_lem f =
    table (not (empty f.user)) (not (empty f.auth_token)) (not (empty f.credentials)) (not f.auth)
  where
    table :
        (u t c n : Bool)
        → ◌≡◌ {A = Bool}
            (if u && (t || (c || n))
              then false
              else if t && (c || n)
              then false
              else if c && n
              then false
              else true)
            (leb (one_if u + one_if t + one_if c + one_if n) 1)
    table true true true true = refl
    table true true true false = refl
    table true true false true = refl
    table true true false false = refl
    table true false true true = refl
    table true false true false = refl
    table true false false true = refl
    table true false false false = refl
    table false true true true = refl
    table false true true false = refl
    table false true false true = refl
    table false true false false = refl
    table false false true true = refl
    table false false true false = refl
    table false false false true = refl
    table false false false false = refl
