-- ===== src/Config/InstanceId/Tests.antt =====
-- "Db-1" as an instance id.
use tateyama_bootstrap.Prelude.{ℕ, ◌≤◌, ◌≡◌, refl, List, [], ◌∷◌, map, length}
use tateyama_bootstrap.Config.InstanceId.{
  valid, max_instance_id_length, to_lower, is_alnum, scan, tolower_and_check,
}
use tateyama_bootstrap.Config.InstanceId.Grammar.{
  IsId, last, more, next_word, tolower_and_check_iff,
}

abbrev db_1 : List ℕ
db_1 = 68 ∷ 98 ∷ 45 ∷ 49 ∷ []

db_1_checked : tolower_and_check db_1 ≡ valid (100 ∷ 98 ∷ 45 ∷ 49 ∷ [])
unfolding tolower_and_check to_lower scan is_alnum
db_1_checked = refl

db_1-IsId : IsId (map to_lower db_1)
unfolding to_lower is_alnum
db_1-IsId = more 100 refl (next_word 98 refl (last 49 refl))

tolower_and_check_iff_example :
    (tolower_and_check db_1 ≡ valid (100 ∷ 98 ∷ 45 ∷ 49 ∷ [])
      → (100 ∷ 98 ∷ 45 ∷ 49 ∷ [] ≡ map to_lower db_1)
        × IsId (100 ∷ 98 ∷ 45 ∷ 49 ∷ [])
        × (length db_1 ≤ max_instance_id_length))
    × ((100 ∷ 98 ∷ 45 ∷ 49 ∷ [] ≡ map to_lower db_1)
          × IsId (100 ∷ 98 ∷ 45 ∷ 49 ∷ [])
          × (length db_1 ≤ max_instance_id_length)
        → tolower_and_check db_1 ≡ valid (100 ∷ 98 ∷ 45 ∷ 49 ∷ []))
tolower_and_check_iff_example = tolower_and_check_iff db_1 (100 ∷ 98 ∷ 45 ∷ 49 ∷ [])
