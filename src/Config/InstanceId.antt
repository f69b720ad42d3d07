-- ===== src/Config/InstanceId.antt =====
-- `instance_id_handler` of src/tateyama/configuration/instance_id_helper.h. Characters are the
-- numbers of their bytes.
pub mod Grammar
mod Tests
use tateyama_bootstrap.Prelude.{
  ℕ, ◌+◌, List, [], ◌∷◌, Bool, true, false, ◌&&◌, ◌||◌, Option, none, some, ltb, leb, ◌==◌, length,
  get_or, ◌-◌, if◌then◌else◌, map,
}

-- The `std::runtime_error` that is thrown, by its text.
pub data IdError : Type 0 where
  empty too_long begins_with_hyphen ends_with_hyphen consecutive_hyphens illegal_character
        not_given :
      IdError

pub data Checked : Type 0 where
  valid : List ℕ → Checked
  refused : IdError → Checked

abbrev pub max_instance_id_length : ℕ
max_instance_id_length = 63

-- `'-'`.
abbrev pub hyphen : ℕ
hyphen = 45

-- `std::tolower`, on the characters of ASCII.
unfoldable pub to_lower : ℕ → ℕ
to_lower c = if leb 65 c && leb c 90 then c + 32 else c

unfoldable pub is_alnum : ℕ → Bool
is_alnum c = (leb 97 c && leb c 122) || (leb 48 c && leb c 57)

-- The loop; the flag says that the character before was a hyphen.
unfoldable pub scan : Bool → List ℕ → Option IdError
unfolding is_alnum
scan after_hyphen [] = none
scan after_hyphen (c ∷ cs) = elim (is_alnum c) [
  | true ↦ scan false cs
  | false ↦ elim (c == hyphen) [
    | false ↦ some illegal_character
    | true ↦ elim after_hyphen [ true ↦ some consecutive_hyphens | false ↦ scan true cs ]
  ]
]

unfoldable pub tolower_and_check : List ℕ → Checked
unfolding to_lower scan
tolower_and_check [] = refused empty
tolower_and_check (c ∷ cs) =
    if ltb max_instance_id_length (length (c ∷ cs))
    then refused too_long
    else if c == hyphen
    then refused begins_with_hyphen
    else if get_or (c ∷ cs) (length (c ∷ cs) - 1) 0 == hyphen
    then refused ends_with_hyphen
    else elim (scan false (map to_lower (c ∷ cs))) [
      | none ↦ valid (map to_lower (c ∷ cs))
      | some e ↦ refused e
    ]

-- "localhost".
abbrev pub localhost : List ℕ
localhost = 108 ∷ 111 ∷ 99 ∷ 97 ∷ 108 ∷ 104 ∷ 111 ∷ 115 ∷ 116 ∷ []

-- The host's name is what `gethostname` gives up to the first 0, or `none` if that fails.
unfoldable pub instance_id : Option (List ℕ) → List ℕ → Checked
unfolding tolower_and_check
instance_id none [] = valid localhost
instance_id (some name) [] = elim (tolower_and_check name) [
  | valid id ↦ valid id
  | refused e ↦ valid localhost
]
instance_id host (c ∷ cs) = tolower_and_check (c ∷ cs)

-- The value of `instance_id` in the configuration, and what is set in its place.
unfoldable pub setup : Option (List ℕ) → Option (List ℕ) → Checked
unfolding instance_id
setup host none = refused not_given
setup host (some id) = instance_id host id
