-- ===== src/Db/Providers.antt =====
-- internal/db/providers.go: the table `providers`, a map by provider and key.
use alertory.Prelude.{Bool, ◌&&◌, List, [], ◌∷◌, if◌then◌else◌, ◌≡◌, refl, arith}
use alertory.Text.{Str, ◌==◌, eq_iff}

pub record ProviderSetting : Type 0 where
  pub provider : Str
  pub key : Str
  pub value : Str

abbrev pub Providers : Type 0
Providers = List ProviderSetting

-- INSERT … ON CONFLICT (provider, key) DO UPDATE
unfoldable pub upsert_provider_setting : Str → Str → Str → Providers → Providers
upsert_provider_setting provider key value [] =
    record { provider = provider; key = key; value = value } ∷ []
upsert_provider_setting provider key value (s ∷ t) =
    if s.provider == provider && s.key == key
    then record s { value = value } ∷ t
    else s ∷ upsert_provider_setting provider key value t

-- The value of a row, "" without one.
unfoldable pub find_setting : Str → Str → Providers → Str
find_setting provider key [] = []
find_setting provider key (s ∷ t) =
    if s.provider == provider && s.key == key then s.value else find_setting provider key t

-- A query that fails (`reads`) reads as "".
unfoldable pub get_provider_setting : Str → Str → Bool → Providers → Str
unfolding find_setting
get_provider_setting provider key reads t = if reads then find_setting provider key t else []

pub find_setting-upsert :
    (provider key value p k : Str) (t : Providers)
    → find_setting p k (upsert_provider_setting provider key value t)
      ≡ (if provider == p && key == k then value else find_setting p k t)
unfolding find_setting upsert_provider_setting
find_setting-upsert provider key value p k [] = refl
find_setting-upsert provider key value p k (s ∷ t) = ground (
  arith,
  eq_iff s.provider provider,
  eq_iff s.key key,
  eq_iff s.provider p,
  eq_iff s.key k,
  eq_iff provider p,
  eq_iff key k,
  find_setting-upsert provider key value p k t,
)
