-- ===== src/Authorization/Owners.antt =====
-- The owner as the default (c_lord/discord_ui/authorization.py, #713): what the reconnects leave.
use c_lord.Prelude.{
  ℕ, true, false, Option, none, some, List, [], ◌∷◌, contains, nat_key, string_key, ◌≡◌, refl, ap,
  ◌∙◌, arith,
}
use c_lord.Authorization.{
  Authorizer, Application, User, Process, id_of, listed, has_explicit_allowlist, is_allowed,
  new_process, resolve_fallback_owner_ids, publish_owners, read_application_owners,
}

-- The reconnects of one process, each with Discord's answer.
abbrev pub ready_all : Authorizer → List (Option Application) → Process → Process
ready_all a [] p = p
ready_all a (answer ∷ answers) p = ready_all a answers (resolve_fallback_owner_ids answer a p)

-- The owners that the first answer names.
abbrev pub first_owners : List (Option Application) → List ℕ
first_owners [] = []
first_owners (none ∷ answers) = first_owners answers
first_owners (some app ∷ answers) = read_application_owners app

resolve_settled :
    (answer : Option Application) (a : Authorizer) (p : Process)
    → p.announced ≡ true
    → resolve_fallback_owner_ids answer a p ≡ p
unfolding resolve_fallback_owner_ids
resolve_settled answer a p h = ground arith

settled :
    (a : Authorizer) (answers : List (Option Application)) (p : Process)
    → p.announced ≡ true
    → ready_all a answers p ≡ p
settled a [] p h = refl
settled a (answer ∷ answers) p h =
    ap (ready_all a answers) (resolve_settled answer a p h) ∙ settled a answers p h

-- Nothing configured and not open to everyone.
pub record IsDefault (a : Authorizer) : Type 0 where
  pub not_open : a.allow_anyone ≡ false
  pub unlisted : has_explicit_allowlist a ≡ false

-- Before an answer of Discord the owners are unknown, or empty after a failure.
abbrev known : Option (List ℕ) → List ℕ
known none = []
known (some owners) = owners

resolve_default :
    (answer : Option Application) (a : Authorizer) (p : Process)
    → IsDefault a
    → p.announced ≡ false
    → resolve_fallback_owner_ids answer a p ≡ publish_owners answer (record p { announced = true })
unfolding resolve_fallback_owner_ids
resolve_default answer a p d h = ground arith

owners-ready_all :
    (a : Authorizer) (answers : List (Option Application)) (p : Process)
    → IsDefault a
    → p.announced ≡ false
    → known p.fallback_owner_ids ≡ []
    → known (ready_all a answers p).fallback_owner_ids ≡ first_owners answers
unfolding publish_owners
owners-ready_all a [] p d h k = k
owners-ready_all a (none ∷ answers) p d h k =
    ap (λ q. known (ready_all a answers q).fallback_owner_ids) (resolve_default none a p d h)
    ∙ owners-ready_all a answers (publish_owners none (record p { announced = true })) d refl refl
owners-ready_all a (some app ∷ answers) p d h k =
    ap (λ q. known (ready_all a answers q).fallback_owner_ids) (resolve_default (some app) a p d h)
    ∙ ap (λ q. known q.fallback_owner_ids)
        (settled a answers (publish_owners (some app) (record p { announced = true })) refl)

listed-known : (owners : Option (List ℕ)) (id : ℕ) → listed owners id ≡ contains id (known owners)
listed-known none id = refl
listed-known (some owners) id = refl

new_announced : new_process.announced ≡ false
unfolding new_process
new_announced = refl

new_known : known new_process.fallback_owner_ids ≡ []
unfolding new_process
new_known = refl

-- With nothing configured, after any number of connects exactly the owners that Discord's first
-- successful answer names are allowed: nobody before it, and a failure neither locks them out for
-- good nor lets anybody in.
pub is_allowed-ready_all :
    (a : Authorizer) (answers : List (Option Application)) (user : User)
    → IsDefault a
    → is_allowed a (ready_all a answers new_process) user
      ≡ contains (id_of user) (first_owners answers)
unfolding is_allowed has_explicit_allowlist
is_allowed-ready_all a answers user d =
    let owners = (ready_all a answers new_process).fallback_owner_ids in
    let k : known owners ≡ first_owners answers =
      owners-ready_all a answers new_process d new_announced new_known in
    ground (arith, listed-known owners (id_of user), d.not_open, d.unlisted, k)
