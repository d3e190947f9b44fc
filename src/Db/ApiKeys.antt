-- ===== src/Db/ApiKeys.antt =====
-- internal/db/apikeys.go: the table `api_keys`. A statement that fails is an error of its caller.
use alertory.Prelude.{
  ℕ, map, Bool, List, ◌∷◌, any, length, keep, not, ◌||◌, Option, none, some, if◌then◌else◌,
}
use alertory.Text.{Str, ◌==◌}

-- Without its time of creation, which only orders a listing.
pub record ApiKey : Type 0 where
  pub id : Str
  pub name : Str
  pub key_hash : Str

abbrev pub ApiKeys : Type 0
ApiKeys = List ApiKey

-- `none` where the id or the hash is taken.
unfoldable pub create_api_key : Str → Str → Str → ApiKeys → Option ApiKeys
create_api_key id name key_hash t =
    if any (λ k. k.id == id || k.key_hash == key_hash) t
    then none
    else some (record { id = id; name = name; key_hash = key_hash } ∷ t)

unfoldable pub api_key_exists : Str → ApiKeys → Bool
api_key_exists key_hash t = any (λ k. k.key_hash == key_hash) t

unfoldable pub count_api_keys : ApiKeys → ℕ
count_api_keys t = length t

unfoldable pub delete_api_key : Str → ApiKeys → ApiKeys
delete_api_key id t = keep (λ k. not (k.id == id)) t

-- What a listing shows of a key: its id and its name.
abbrev pub shown_keys : ApiKeys → List (Str × Str)
shown_keys t = map (λ k. (k.id, k.name)) t

-- ListAPIKeys; `by_created` is ORDER BY created_at DESC.
unfoldable pub list_api_keys : (ApiKeys → ApiKeys) → ApiKeys → List (Str × Str)
list_api_keys by_created t = shown_keys (by_created t)
