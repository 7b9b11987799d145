-- ===== src/Server/Auth.antt =====
-- internal/server/auth.go: users, API keys, and how a presented key is resolved. Only the hash of a key is
-- stored. SHA-256 and the bytes of `rand.Read` are arguments; base64 and hex are written out.
pub mod Live
pub mod Lists
use token_usage.Prelude.{
  ℕ, ◌+◌, ◌-◌, ◌*◌, ◌/◌, ◌%◌, ◌≡◌, Bool, true, false, not, ◌&&◌, ◌||◌, Option, none, some, List, [],
  ◌∷◌, ◌++◌, map, keep, length, take, Text, text_eq, codes, ◌==◌, has_prefix, ltb, leb,
  if◌then◌else◌,
}
use token_usage.Store.Usage.{null_if_empty}

pub record User : Type 0 where
  pub user_id : Text
  pub email : Option Text
  pub created_at : ℕ
  pub disabled_at : Option ℕ

pub record ApiKey : Type 0 where
  pub key_hash : Text
  pub key_prefix : Text
  pub user_id : Text
  pub name : Option Text
  pub created_at : ℕ
  pub last_used_at : Option ℕ
  pub revoked_at : Option ℕ

pub record Accounts : Type 0 where
  pub users : List User
  pub keys : List ApiKey

abbrev key_prefix_text : Text
key_prefix_text = codes "tuk_"

-- a character of base64.RawURLEncoding
unfoldable pub base64_char : ℕ → ℕ
base64_char n =
    if ltb n 26
    then 65 + n
    else if ltb n 52
    then 71 + n
    else if ltb n 62
    then n - 4
    else if ltb n 63
    then 45
    else 95

-- base64.RawURLEncoding.EncodeToString: four characters for three bytes, no padding
unfoldable pub encode_base64 : List ℕ → Text
unfolding base64_char
encode_base64 [] = []
encode_base64 (a ∷ []) = base64_char (a / 4) ∷ base64_char (a % 4 * 16) ∷ []
encode_base64 (a ∷ b ∷ []) =
    base64_char (a / 4) ∷ base64_char (a % 4 * 16 + b / 16) ∷ base64_char (b % 16 * 4) ∷ []
encode_base64 (a ∷ b ∷ c ∷ rest) =
    base64_char (a / 4)
    ∷ base64_char (a % 4 * 16 + b / 16)
    ∷ base64_char (b % 16 * 4 + c / 64)
    ∷ base64_char (c % 64)
    ∷ encode_base64 rest

unfoldable pub hex_digit : ℕ → ℕ
hex_digit n = if ltb n 10 then 48 + n else 87 + n

-- hex.EncodeToString
unfoldable pub encode_hex : List ℕ → Text
unfolding hex_digit
encode_hex [] = []
encode_hex (a ∷ rest) = hex_digit (a / 16) ∷ hex_digit (a % 16) ∷ encode_hex rest

abbrev pub is_live : ApiKey → Bool
is_live k = elim k.revoked_at [ none ↦ true | some at ↦ false ]

-- Whether a column of a unique index has a value.
unfoldable pub has_hash : Text → List ApiKey → Bool
has_hash h [] = false
has_hash h (k ∷ keys) = if k.key_hash == h then true else has_hash h keys

unfoldable pub has_user : Text → List User → Bool
has_user id [] = false
has_user id (u ∷ users) = if u.user_id == id then true else has_user id users

-- UPDATE ... SET ... WHERE: every row that the test passes is changed
unfoldable pub update_keys : (ApiKey → Bool) → (ApiKey → ApiKey) → List ApiKey → List ApiKey
update_keys p f [] = []
update_keys p f (k ∷ keys) = let rest = update_keys p f keys in if p k then f k ∷ rest else k ∷ rest

-- The first 12 bytes of a prefix, or of a whole key.
unfoldable cut_prefix : Text → Text
cut_prefix prefix = if leb 12 (length prefix) then take 12 prefix else prefix

-- key_prefix = $1 AND revoked_at IS NULL
abbrev is_match : Text → ApiKey → Bool
is_match prefix k = k.key_prefix == prefix && is_live k

abbrev revoke_row : ℕ → ApiKey → ApiKey
revoke_row now k = record k { revoked_at = some now }

abbrev touch : ℕ → ApiKey → ApiKey
touch now k = record k { last_used_at = some now }

-- `RevokeAPIKey`: whether it returned without an error
unfoldable pub revoke : Bool → ℕ → Text → List ApiKey → Bool × List ApiKey
unfolding cut_prefix
revoke true now prefix keys = (false, keys)
revoke false now prefix keys = (
  ltb 0 (length (keep (is_match (cut_prefix prefix)) keys)),
  update_keys (is_match (cut_prefix prefix)) (revoke_row now) keys,
)

-- `CreateUser`: `none` is an error
unfoldable pub create_user : Bool → ℕ → Text → Text → List User → Option (List User)
create_user fault now id email users =
    if id == [] || (fault || has_user id users)
    then none
    else some (
        users
        ++ record {
          user_id = id;
          email = null_if_empty email;
          created_at = now;
          disabled_at = none;
        }
          ∷ [])

-- What `ResolveAPIKey` answers: an owner, `ErrInvalidKey`, or another error.
pub data Resolved : Type 0 where
  owner : Text → Resolved
  invalid_key : Resolved
  failed : Resolved

-- A key as it is shown, and its first 12 characters.
pub record Shown : Type 0 where
  pub raw : Text
  pub prefix : Text

module _ (sha256 : Text → List ℕ) where
  -- hashKey
  unfoldable pub hash_key : Text → Text
  unfolding encode_hex
  hash_key raw = encode_hex (sha256 raw)

  -- `NewAPIKey`, of what `rand.Read` wrote into 24 bytes
  unfoldable pub new_api_key : Option (List ℕ) → Option Shown
  unfolding encode_base64
  new_api_key none = none
  new_api_key (some buf) = some (record {
    raw = key_prefix_text ++ encode_base64 buf;
    prefix = take 12 (key_prefix_text ++ encode_base64 buf);
  })

  -- key_hash = $1 AND revoked_at IS NULL
  abbrev is_presented : Text → ApiKey → Bool
  is_presented raw k = k.key_hash == hash_key raw && is_live k

  -- RETURNING user_id, scanned from the first row
  abbrev first_owner : List ApiKey → Resolved
  first_owner [] = invalid_key
  first_owner (k ∷ keys) = owner k.user_id

  -- `ResolveAPIKey`
  unfoldable pub resolve : Bool → ℕ → Text → List ApiKey → Resolved × List ApiKey
  resolve fault now raw keys =
      if has_prefix raw key_prefix_text
      then if fault then (failed, keys) else (
        first_owner (keep (is_presented raw) keys),
        update_keys (is_presented raw) (touch now) keys,
      )
      else (invalid_key, keys)

  -- the row that `CreateAPIKey` inserts; name is NULLIF($4, '')
  abbrev new_row : ℕ → Text → Text → Shown → ApiKey
  new_row now id name new = record {
    key_hash = hash_key new.raw;
    key_prefix = new.prefix;
    user_id = id;
    name = null_if_empty name;
    created_at = now;
    last_used_at = none;
    revoked_at = none;
  }

  -- `CreateAPIKey`: the key shown, or an error. The hash is the table's primary key, and the user has
  -- to be there.
  unfoldable pub create_api_key :
      Bool → ℕ → Option (List ℕ) → Text → Text → Accounts → Option Shown × Accounts
  unfolding new_api_key
  create_api_key fault now random id name a = elim (new_api_key random) [
    | none ↦ (none, a)
    | some new ↦
        if fault || (has_hash (hash_key new.raw) a.keys || not (has_user id a.users))
        then (none, a)
        else (some new, record a { keys = a.keys ++ new_row now id name new ∷ [] })
  ]
