-- ===== src/Authorization/Examples.antt =====
-- Users at the gate, and the theorems at them.
use c_lord.Prelude.{true, false, none, some, [], ◌∷◌, ◌≡◌, ◌↔◌, refl, nat_key, string_key}
use c_lord.Authorization.{
  Authorizer, Process, member, plain, team, owned_by, new_process, has_explicit_allowlist, decide,
  is_allowed, interaction_check, allow_anyone_enabled, resolve_fallback_owner_ids,
  set_default_authorizer, read_application_owners,
}
use c_lord.Authorization.Rule.{Grounds, is_allowed_iff}
use c_lord.Authorization.Owners.{ready_all, IsDefault, is_allowed-ready_all}

program : Unit {0}
unfolding new_process has_explicit_allowlist decide is_allowed interaction_check
    allow_anyone_enabled resolve_fallback_owner_ids set_default_authorizer
program = tt

-- Role "ops" or user 5.
abbrev by_role_or_id : Authorizer
by_role_or_id = record {
  allowed_user_ids = some (5 ∷ []);
  allowed_role_name = some "ops";
  allow_anyone = false;
}

abbrev unconfigured : Authorizer
unconfigured = record { allowed_user_ids = none; allowed_role_name = none; allow_anyone = false }

no_role_in_a_dm : is_allowed by_role_or_id new_process (plain 6) ≡ false
unfolding program
no_role_in_a_dm = refl

nobody_before_ready : is_allowed unconfigured new_process (plain 5) ≡ false
unfolding program
nobody_before_ready = refl

-- A view without an authorizer of its own uses the allowlist of the process.
floor_of_views :
    interaction_check none (set_default_authorizer (some by_role_or_id) new_process) (plain 5)
    ≡ true
unfolding program
floor_of_views = refl

is_allowed_iff_example :
    (is_allowed by_role_or_id new_process (member 6 ("ops" ∷ [])) ≡ true)
    ↔ Grounds by_role_or_id new_process (member 6 ("ops" ∷ []))
is_allowed_iff_example = is_allowed_iff by_role_or_id new_process (member 6 ("ops" ∷ []))

explicit : has_explicit_allowlist by_role_or_id ≡ true
unfolding program
explicit = refl

owned : Process
owned = ready_all unconfigured (some (owned_by 6) ∷ []) new_process

unconfigured-IsDefault : IsDefault unconfigured
unfolding program
unconfigured-IsDefault = record { not_open = refl; unlisted = refl }

is_allowed-ready_all_example :
    is_allowed unconfigured
      (ready_all unconfigured
        (none ∷ some (team (5 ∷ 6 ∷ [])) ∷ some (owned_by 9) ∷ [])
        new_process)
      (plain 6)
    ≡ true
unfolding read_application_owners
is_allowed-ready_all_example =
    is_allowed-ready_all unconfigured (none ∷ some (team (5 ∷ 6 ∷ [])) ∷ some (owned_by 9) ∷ [])
      (plain 6) unconfigured-IsDefault
