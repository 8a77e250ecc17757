-- ===== src/Authorization/Rule.antt =====
-- The allowlist rule (c_lord/discord_ui/authorization.py), read off the four steps of its docs.
use c_lord.Prelude.{
  ℕ, String, Bool, true, false, none, some, List, contains, nat_key, string_key, ◌≡◌, ◌↔◌, inl, inr,
  arith, Bool-cases, Option-cases,
}
use c_lord.Authorization.{
  Authorizer, User, Process, id_of, roles_of, listed, has_explicit_allowlist, is_allowed,
}

-- Why a user may drive c-lord.
pub data Grounds (a : Authorizer) (p : Process) (user : User) : Type 0 where
  by_id :
      (ids : List ℕ)
      → a.allowed_user_ids ≡ some ids
      → contains (id_of user) ids ≡ true
      → Grounds a p user
  by_role :
      (name : String) (roles : List String)
      → a.allowed_role_name ≡ some name
      → roles_of user ≡ some roles
      → contains name roles ≡ true
      → Grounds a p user
  by_switch :
      a.allowed_user_ids ≡ none
      → a.allowed_role_name ≡ none
      → a.allow_anyone ≡ true
      → Grounds a p user
  by_ownership :
      (owners : List ℕ)
      → a.allowed_user_ids ≡ none
      → a.allowed_role_name ≡ none
      → p.fallback_owner_ids ≡ some owners
      → contains (id_of user) owners ≡ true
      → Grounds a p user

allowed_of_Grounds :
    (a : Authorizer) (p : Process) (user : User) → Grounds a p user → is_allowed a p user ≡ true
unfolding is_allowed
allowed_of_Grounds a p user (by_id ids e h) = ground arith
allowed_of_Grounds a p user (by_role name roles e r h) = ground arith
allowed_of_Grounds a p user (by_switch e f h) = ground arith
allowed_of_Grounds a p user (by_ownership owners e f o h) = ground arith

Grounds-of_unconfigured :
    (a : Authorizer) (p : Process) (user : User)
    → a.allowed_user_ids ≡ none
    → a.allowed_role_name ≡ none
    → is_allowed a p user ≡ true
    → Grounds a p user
unfolding is_allowed
Grounds-of_unconfigured a p user e f h = elim (Bool-cases a.allow_anyone) [
  | inl s ↦ by_switch e f s
  | inr s ↦ elim (Option-cases p.fallback_owner_ids) [
    | inl o ↦ absurd (ground arith)
    | inr (owners, o) ↦ by_ownership owners e f o (ground arith)
  ]
]

Grounds-of_role :
    (a : Authorizer) (p : Process) (user : User) (name : String)
    → listed a.allowed_user_ids (id_of user) ≡ false
    → a.allowed_role_name ≡ some name
    → is_allowed a p user ≡ true
    → Grounds a p user
unfolding is_allowed
Grounds-of_role a p user name l e h = elim (Option-cases (roles_of user)) [
  | inl r ↦ absurd (ground arith)
  | inr (roles, r) ↦ by_role name roles e r (ground arith)
]

ids_unset :
    (a : Authorizer) (p : Process) (user : User)
    → listed a.allowed_user_ids (id_of user) ≡ false
    → a.allowed_role_name ≡ none
    → is_allowed a p user ≡ true
    → a.allowed_user_ids ≡ none
unfolding is_allowed
ids_unset a p user l e h = ground arith

Grounds-of_unlisted :
    (a : Authorizer) (p : Process) (user : User)
    → listed a.allowed_user_ids (id_of user) ≡ false
    → is_allowed a p user ≡ true
    → Grounds a p user
Grounds-of_unlisted a p user l h = elim (Option-cases a.allowed_role_name) [
  | inr (name, e) ↦ Grounds-of_role a p user name l e h
  | inl e ↦ Grounds-of_unconfigured a p user (ids_unset a p user l e h) e h
]

Grounds-of_listed :
    (a : Authorizer) (p : Process) (user : User)
    → listed a.allowed_user_ids (id_of user) ≡ true
    → Grounds a p user
Grounds-of_listed a p user h = elim (Option-cases a.allowed_user_ids) [
  | inl e ↦ absurd (ground arith)
  | inr (ids, e) ↦ by_id ids e (ground arith)
]

-- A user is allowed exactly when one of the four grounds holds: listed by id; a member with the
-- configured role; with nothing configured, the explicit switch, or being one of the application's
-- resolved owners.
pub is_allowed_iff :
    (a : Authorizer) (p : Process) (user : User) → (is_allowed a p user ≡ true) ↔ Grounds a p user
is_allowed_iff a p user = (
  λ h. elim (Bool-cases (listed a.allowed_user_ids (id_of user))) [
    | inl l ↦ Grounds-of_listed a p user l
    | inr l ↦ Grounds-of_unlisted a p user l h
  ],
  allowed_of_Grounds a p user,
)

-- A configured allowlist alone decides: neither the application's owners, nor the switch that opens
-- the bot to everyone, changes an answer.
pub is_allowed_explicit :
    (a : Authorizer) (p q : Process) (open_to_all : Bool) (user : User)
    → has_explicit_allowlist a ≡ true
    → is_allowed a p user ≡ is_allowed (record a { allow_anyone = open_to_all }) q user
unfolding is_allowed has_explicit_allowlist
is_allowed_explicit a p q open_to_all user h = ground arith
