-- ===== src/Server/Auth/Lists.antt =====
-- `ListUsers` and `ListAPIKeys` of internal/server/auth.go. The order of texts, which is the database's
-- collation, is in the argument `before`.
use token_usage.Sort.{order_by}
use token_usage.Prelude.{
  ℕ, Bool, true, false, not, ◌||◌, Option, none, some, List, [], map, keep, Text, text_eq, ◌==◌,
}
use token_usage.Server.Auth.{User, ApiKey, is_live}

pub record UserRow : Type 0 where
  pub user_id : Text
  pub email : Text
  pub created_at : ℕ
  pub disabled : Bool

pub record ApiKeyRow : Type 0 where
  pub prefix : Text
  pub user_id : Text
  pub name : Text
  pub created_at : ℕ
  pub last_used_at : Option ℕ
  pub revoked : Bool

-- COALESCE(column, '')
abbrev or_empty : Option Text → Text
or_empty none = []
or_empty (some t) = t

abbrev is_set : Option ℕ → Bool
is_set none = false
is_set (some t) = true

abbrev user_row : User → UserRow
user_row u = record {
  user_id = u.user_id;
  email = or_empty u.email;
  created_at = u.created_at;
  disabled = is_set u.disabled_at;
}

abbrev key_row : ApiKey → ApiKeyRow
key_row k = record {
  prefix = k.key_prefix;
  user_id = k.user_id;
  name = or_empty k.name;
  created_at = k.created_at;
  last_used_at = k.last_used_at;
  revoked = not (is_live k);
}

-- `ListUsers`: ORDER BY user_id; `none` is an error
unfoldable pub list_users : (User → User → Bool) → Bool → List User → Option (List UserRow)
unfolding order_by
list_users before true users = none
list_users before false users = some (map user_row (order_by before users))

-- `ListAPIKeys`: ORDER BY user_id, created_at DESC; an empty user is every user
unfoldable pub list_api_keys :
    (ApiKey → ApiKey → Bool) → Bool → Text → List ApiKey → Option (List ApiKeyRow)
unfolding order_by
list_api_keys before true user keys = none
list_api_keys before false user keys =
    some (map key_row (order_by before (keep (λ k. user == [] || k.user_id == user) keys)))
