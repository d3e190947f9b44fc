-- ===== src/Http/Webhook/Access.antt =====
-- Who `checkWebhookAuth` lets in.
use alertory.Prelude.{
  true, false, ◌||◌, [], ◌∷◌, ◌++◌, ◌≡◌, ◌≢◌, ◌↔◌, ◌⊎◌, inl, inr, refl, any, arith, ap, ◌∙◌, some,
}
use alertory.Text.{Str, str, ◌==◌, eq_iff, eq_refl}
use alertory.Text.Parts.{has_prefix, trim_prefix}
use alertory.Slack.{is_empty}
use alertory.Db.ApiKeys.{ApiKeys, api_key_exists, count_api_keys, create_api_key, delete_api_key}
use alertory.Http.Webhook.{bearer, Works, any_api_keys_exist, check_webhook_auth}

-- The header is the configured token, and a token is configured.
abbrev pub IsToken : Str → Str → Type 0
IsToken supplied token = (is_empty token ≡ false) × (supplied ≡ bearer ++ token)

-- The header carries a key.
abbrev pub HasKey : Str → Type 0
HasKey supplied =
    (has_prefix bearer supplied ≡ true) × (is_empty (trim_prefix bearer supplied) ≡ false)

-- The header carries a key whose hash is stored, and the lookup succeeds.
abbrev pub IsKey : (Str → Str) → Str → Works → ApiKeys → Type 0
IsKey sha256_hex supplied works t =
    HasKey supplied
    × (works.lookup ≡ true)
    × (api_key_exists (sha256_hex (trim_prefix bearer supplied)) t ≡ true)

-- Nothing locks the endpoint: no token, and a count of the keys that succeeds and finds none.
-- The lookup of a key that was supplied must not fail either.
abbrev pub IsOpen : Str → Str → Works → ApiKeys → Type 0
IsOpen supplied token works t =
    (is_empty token ≡ true)
    × (works.count ≡ true)
    × (count_api_keys t ≡ 0)
    × (HasKey supplied → works.lookup ≡ true)

-- A request is let in exactly if it carries the configured token, or a stored API key whose lookup
-- succeeds, or if the endpoint is open: no token is configured, the count of the keys succeeds and
-- finds none, and the lookup of a supplied key, if there is one, succeeds.
pub check_webhook_auth_iff :
    (sha256_hex : Str → Str) (supplied token : Str) (works : Works) (t : ApiKeys)
    → (check_webhook_auth sha256_hex supplied token works t ≡ true) ↔ (
        IsToken supplied token
        ⊎ (IsKey sha256_hex supplied works t ⊎ IsOpen supplied token works t))
unfolding check_webhook_auth any_api_keys_exist
check_webhook_auth_iff sha256_hex supplied token works t =
    ground (arith, eq_iff supplied (bearer ++ token))

keep_others :
    (id name key_hash : Str) (t : ApiKeys)
    → any (λ k. k.id == id || k.key_hash == key_hash) t ≡ false
    → delete_api_key id t ≡ t
unfolding delete_api_key
keep_others id name key_hash [] h = refl
keep_others id name key_hash (k ∷ t) h = ground (arith, keep_others id name key_hash t)

create_api_key_free :
    (id name key_hash : Str) (t t' : ApiKeys)
    → create_api_key id name key_hash t ≡ some t'
    → any (λ k. k.id == id || k.key_hash == key_hash) t ≡ false
unfolding create_api_key
create_api_key_free id name key_hash t t' h = ground arith

create_api_key_first :
    (id name key_hash : Str) (t t' : ApiKeys)
    → create_api_key id name key_hash t ≡ some t'
    → t' ≡ record { id = id; name = name; key_hash = key_hash } ∷ t
unfolding create_api_key
create_api_key_first id name key_hash t t' h = ground arith

delete-create :
    (id name key_hash : Str) (t : ApiKeys)
    → any (λ k. k.id == id || k.key_hash == key_hash) t ≡ false
    → delete_api_key id (record { id = id; name = name; key_hash = key_hash } ∷ t) ≡ t
unfolding delete_api_key
delete-create id name key_hash t h = rw (eq_refl id) (keep_others id name key_hash t h)

trim_prefix-bearer : (raw : Str) → trim_prefix bearer (bearer ++ raw) ≡ raw
unfolding trim_prefix has_prefix str
trim_prefix-bearer raw = refl

has_prefix-bearer : (raw : Str) → has_prefix bearer (bearer ++ raw) ≡ true
unfolding has_prefix str
has_prefix-bearer raw = refl

api_key_exists_first :
    (id name key_hash : Str) (t : ApiKeys)
    → api_key_exists key_hash (record { id = id; name = name; key_hash = key_hash } ∷ t) ≡ true
unfolding api_key_exists
api_key_exists_first id name key_hash t = rw (eq_refl key_hash) refl

-- A key that was issued lets its requests in while its lookup succeeds, whatever token is
-- configured. After it is revoked every request is let in exactly if it was before the key.
pub check_webhook_auth_revoke :
    (sha256_hex : Str → Str) (id name raw token : Str) (works : Works) (t t' : ApiKeys)
    → create_api_key id name (sha256_hex raw) t ≡ some t'
    → raw ≢ []
    → works.lookup ≡ true
    → (check_webhook_auth sha256_hex (bearer ++ raw) token works t' ≡ true)
      × ((supplied : Str)
          → check_webhook_auth sha256_hex supplied token works (delete_api_key id t')
            ≡ check_webhook_auth sha256_hex supplied token works t)
check_webhook_auth_revoke sha256_hex id name [] token works t t' created some_text lookup =
    absurd (some_text refl)
check_webhook_auth_revoke sha256_hex id name (c ∷ raw) token works t t' created some_text lookup =
    let h = sha256_hex (c ∷ raw) in
    let first = create_api_key_first id name h t t' created in
    (
      rw first (
          (check_webhook_auth_iff sha256_hex (bearer ++ (c ∷ raw)) token works _).1 (
            inr (
              inl (
                (
                  has_prefix-bearer (c ∷ raw),
                  rw (trim_prefix-bearer (c ∷ raw)) (unfold is_empty in refl),
                ),
                lookup,
                rw (trim_prefix-bearer (c ∷ raw)) (api_key_exists_first id name h t),
              )))),
      λ supplied. ap (check_webhook_auth sha256_hex supplied token works) (
          ap (delete_api_key id) first
          ∙ delete-create id name h t (create_api_key_free id name h t t' created)),
    )
