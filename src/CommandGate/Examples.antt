-- ===== src/CommandGate/Examples.antt =====
-- Messages at the gate, and the theorems at them.
use c_lord.Prelude.{ℕ, true, false, none, some, List, [], ◌∷◌, ◌≡◌, ◌↔◌, refl, nat_key}
use c_lord.Authorization.{Authorizer, plain}
use c_lord.CommandGate.{
  found, absent, raised, is_trusted_bot_id_text, int_from, trusted_bot_ids, Message,
  is_message_authorized, authorize_command, any_resolver, owns,
}
use c_lord.CommandGate.Ownership.{Claim, owns_iff, owns-swallowed}

program : Unit {0}
unfolding is_trusted_bot_id_text int_from trusted_bot_ids is_message_authorized authorize_command
    any_resolver owns
program = tt

-- "42", "4a" and a superscript two, by code points.
abbrev env : List (List ℕ)
env = (52 ∷ 50 ∷ []) ∷ (52 ∷ 97 ∷ []) ∷ (178 ∷ []) ∷ []

only_42 : trusted_bot_ids env ≡ 42 ∷ []
unfolding program
only_42 = refl

no_id : is_trusted_bot_id_text (178 ∷ []) ≡ false
unfolding program
no_id = refl

abbrev nobody : Authorizer
nobody = record { allowed_user_ids = some []; allowed_role_name = none; allow_anyone = false }

abbrev anybody : Authorizer
anybody = record { allowed_user_ids = none; allowed_role_name = none; allow_anyone = true }

abbrev own_voice : Message
own_voice = record {
  webhook = true;
  voice = true;
  author = plain 1;
  author_id = 1;
  author_is_bot = true;
}

owns_iff_example :
    (owns (some 1) (some 2) (some 3) (raised ∷ found ∷ []) (some absent) ≡ true)
    ↔ Claim (some 1) (some 2) (some 3) (raised ∷ found ∷ []) (some absent)
owns_iff_example = owns_iff (some 1) (some 2) (some 3) (raised ∷ found ∷ []) (some absent)

owns-swallowed_example :
    owns (some 1) (some 2) (some 3) (raised ∷ []) (some raised)
    ≡ owns (some 1) (some 2) (some 3) (absent ∷ []) (some absent)
owns-swallowed_example = owns-swallowed (some 1) (some 2) (some 3) (raised ∷ []) raised
