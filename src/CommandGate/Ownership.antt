-- ===== src/CommandGate/Ownership.antt =====
-- Which instance answers (c_lord/command_gate.py, `owns`).
use c_lord.Prelude.{
  ℕ, true, false, ◌&&◌, Option, some, List, [], ◌∷◌, nat_key, is_some, ◌≡◌, ◌↔◌, refl, inl, inr,
  arith, Bool-cases, Option-cases, map,
}
use c_lord.CommandGate.{Lookup, found, absent, raised, any_resolver, same_channel, owns}

-- Some resolver found a binding.
pub data Binds : List Lookup → Type 0 where
  here : {answers : List Lookup} → Binds (found ∷ answers)
  later : {answer : Lookup} {answers : List Lookup} → Binds answers → Binds (answer ∷ answers)

-- A record that ties this instance to the place.
pub data Claim (home channel thread : Option ℕ) (resolvers : List Lookup) (session : Option Lookup)
    : Type 0 where
  at_home : (c : ℕ) → channel ≡ some c → home ≡ some c → Claim home channel thread resolvers session
  bound : (c : ℕ) → channel ≡ some c → Binds resolvers → Claim home channel thread resolvers session
  has_session :
      (t : ℕ) → thread ≡ some t → session ≡ some found → Claim home channel thread resolvers session

any_of_Binds : {answers : List Lookup} → Binds answers → any_resolver answers ≡ true
unfolding any_resolver
any_of_Binds here = refl
any_of_Binds (later {answer} b) = ground (arith, any_of_Binds b)

Binds-of_any : (answers : List Lookup) → any_resolver answers ≡ true → Binds answers
unfolding any_resolver
Binds-of_any [] h = absurd (cc)
Binds-of_any (found ∷ answers) h = here
Binds-of_any (absent ∷ answers) h = later (Binds-of_any answers h)
Binds-of_any (raised ∷ answers) h = later (Binds-of_any answers h)

module _ (home channel thread : Option ℕ) (resolvers : List Lookup) (session : Option Lookup) where
  owns_of_Claim :
      Claim home channel thread resolvers session
      → owns home channel thread resolvers session ≡ true
  unfolding owns
  owns_of_Claim (at_home c e h) = ground arith
  owns_of_Claim (bound c e b) = ground (arith, any_of_Binds b)
  owns_of_Claim (has_session t e s) = ground arith

  home_Claim : same_channel channel home ≡ true → Claim home channel thread resolvers session
  home_Claim h = elim (Option-cases channel) [
    | inl e ↦ absurd (ground arith)
    | inr (c, e) ↦ elim (Option-cases home) [
      | inl f ↦ absurd (ground arith)
      | inr (d, f) ↦ at_home c e (ground arith)
    ]
  ]

  bound_Claim :
      (is_some channel && any_resolver resolvers) ≡ true
      → Claim home channel thread resolvers session
  bound_Claim h = elim (Option-cases channel) [
    | inl e ↦ absurd (ground arith)
    | inr (c, e) ↦ bound c e (Binds-of_any resolvers (ground arith))
  ]

  found_session :
      same_channel channel home ≡ false
      → (is_some channel && any_resolver resolvers) ≡ false
      → owns home channel thread resolvers session ≡ true
      → (is_some thread ≡ true) × (session ≡ some found)
  unfolding owns
  found_session h b o = (ground arith, ground arith)

  Claim-of_owns :
      owns home channel thread resolvers session ≡ true
      → Claim home channel thread resolvers session
  Claim-of_owns o = elim (Bool-cases (same_channel channel home)) [
    | inl h ↦ home_Claim h
    | inr h ↦ elim (Bool-cases (is_some channel && any_resolver resolvers)) [
      | inl b ↦ bound_Claim b
      | inr b ↦ elim (Option-cases thread) [
        | inl t ↦ absurd (ground (arith, found_session h b o))
        | inr (t, e) ↦ has_session t e (found_session h b o).1
      ]
    ]
  ]

  -- The instance answers exactly where it can point at a record: the home channel, a binding that
  -- some resolver finds for the channel, or a session row of the thread.
  pub owns_iff :
      (owns home channel thread resolvers session ≡ true)
      ↔ Claim home channel thread resolvers session
  owns_iff = (Claim-of_owns, owns_of_Claim)

-- An exception that is taken for "nothing found".
abbrev pub swallowed : Lookup → Lookup
swallowed found = found
swallowed absent = absent
swallowed raised = absent

any_resolver-swallowed :
    (answers : List Lookup) → any_resolver (map swallowed answers) ≡ any_resolver answers
unfolding any_resolver
any_resolver-swallowed [] = refl
any_resolver-swallowed (found ∷ answers) = refl
any_resolver-swallowed (absent ∷ answers) = any_resolver-swallowed answers
any_resolver-swallowed (raised ∷ answers) = any_resolver-swallowed answers

-- A lookup that raises never makes a bystander the owner, and never stops a later lookup: the answer
-- is the one that "nothing found" in its place would give.
pub owns-swallowed :
    (home channel thread : Option ℕ) (resolvers : List Lookup) (session : Lookup)
    → owns home channel thread resolvers (some session)
      ≡ owns home channel thread (map swallowed resolvers) (some (swallowed session))
unfolding owns
owns-swallowed home channel thread resolvers session =
    ground (arith, any_resolver-swallowed resolvers)
