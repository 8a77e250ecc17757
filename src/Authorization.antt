-- ===== src/Authorization.antt =====
-- c_lord/discord_ui/authorization.py: who may drive c-lord. What Discord answers about the
-- application's owner is an argument; the environment variable comes stripped and in lower case.
pub mod Rule
pub mod Owners
mod Examples
use c_lord.Prelude.{
  ℕ, String, Bool, true, false, Option, none, some, List, [], ◌∷◌, contains, if◌then◌else◌, ◌||◌,
  is_some, nat_key, string_key,
}

abbrev pub true_values : List String
true_values = "1" ∷ "true" ∷ "yes" ∷ "on" ∷ []

unfoldable pub allow_anyone_enabled : Option Bool → String → Bool
allow_anyone_enabled (some explicit) env = explicit
allow_anyone_enabled none env = contains env true_values

pub record Authorizer : Type 0 where
  pub allowed_user_ids : Option (List ℕ)
  pub allowed_role_name : Option String
  pub allow_anyone : Bool

-- `discord.Member` carries roles; a plain `discord.User`, as in a DM, has none.
pub data User : Type 0 where
  member : ℕ → List String → User
  plain : ℕ → User

abbrev pub id_of : User → ℕ
id_of (member id roles) = id
id_of (plain id) = id

abbrev pub roles_of : User → Option (List String)
roles_of (member id roles) = some roles
roles_of (plain id) = none

-- The module's globals.
pub record Process : Type 0 where
  pub fallback_owner_ids : Option (List ℕ)
  pub announced : Bool
  pub default_authorizer : Option Authorizer

unfoldable pub new_process : Process
new_process = record { fallback_owner_ids = none; announced = false; default_authorizer = none }

unfoldable pub has_explicit_allowlist : Authorizer → Bool
has_explicit_allowlist a = is_some a.allowed_user_ids || is_some a.allowed_role_name

abbrev pub listed : Option (List ℕ) → ℕ → Bool
listed none id = false
listed (some ids) id = contains id ids

abbrev pub has_role : String → Option (List String) → Bool
has_role name none = false
has_role name (some roles) = contains name roles

-- The tail of `_decide`, where nothing is configured.
unfoldable pub decide_unconfigured : Bool → Option (List ℕ) → ℕ → Bool
decide_unconfigured allow_anyone owners id = if allow_anyone then true else listed owners id

unfoldable pub decide : Authorizer → Option (List ℕ) → ℕ → Option (List String) → Bool
unfolding decide_unconfigured
decide a owners id roles = if listed a.allowed_user_ids id then true else elim a.allowed_role_name [
  | some name ↦ has_role name roles
  | none ↦
      if is_some a.allowed_user_ids then false else decide_unconfigured a.allow_anyone owners id
]

unfoldable pub is_allowed : Authorizer → Process → User → Bool
unfolding decide
is_allowed a p user = decide a p.fallback_owner_ids (id_of user) (roles_of user)

unfoldable pub is_allowed_user_id : Authorizer → Process → ℕ → Bool
unfolding decide
is_allowed_user_id a p id = decide a p.fallback_owner_ids id none

unfoldable pub set_fallback_owner_ids : Option (List ℕ) → Process → Process
set_fallback_owner_ids ids p = record p {
  fallback_owner_ids = ids;
  announced = if is_some ids then p.announced else false;
}

-- The application as Discord describes it.
pub data Application : Type 0 where
  team : List ℕ → Application
  owned_by : ℕ → Application

unfoldable pub read_application_owners : Application → List ℕ
read_application_owners (team members) = members
read_application_owners (owned_by owner) = owner ∷ []

-- What the try block leaves: `none` is an exception from Discord.
unfoldable pub publish_owners : Option Application → Process → Process
unfolding set_fallback_owner_ids read_application_owners
publish_owners none p = record (set_fallback_owner_ids (some []) p) { announced = false }
publish_owners (some app) p = set_fallback_owner_ids (some (read_application_owners app)) p

-- One `on_ready`.
unfoldable pub resolve_fallback_owner_ids : Option Application → Authorizer → Process → Process
unfolding publish_owners has_explicit_allowlist
resolve_fallback_owner_ids answer a p =
    if p.announced
    then p
    else let p' : Process = record p { announced = true } in
      if a.allow_anyone
      then p'
      else if has_explicit_allowlist a
      then p'
      else publish_owners answer p'

unfoldable pub set_default_authorizer : Option Authorizer → Process → Process
set_default_authorizer a p = record p { default_authorizer = a }

-- `wired or get_default_authorizer()`
abbrev pub wired_or : Option Authorizer → Option Authorizer → Option Authorizer
wired_or (some a) default = some a
wired_or none default = default

-- `AuthorizedViewMixin.interaction_check`: the answer to a click.
unfoldable pub interaction_check : Option Authorizer → Process → User → Bool
unfolding is_allowed
interaction_check wired p user = elim (wired_or wired p.default_authorizer) [
  | none ↦ false
  | some a ↦ is_allowed a p user
]
