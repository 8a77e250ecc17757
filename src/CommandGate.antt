-- ===== src/CommandGate.antt =====
-- c_lord/command_gate.py: which instance answers a text command, and who may drive it. An entry of
-- CLORD_TRUSTED_BOT_IDS is the list of its code points, stripped. What a lookup (a binding, a
-- session row) answers is an argument.
pub mod Trust
pub mod Ownership
mod Examples
use c_lord.Prelude.{
  ℕ, zero, suc, ◌+◌, ◌*◌, ◌-◌, Bool, true, false, not, ◌&&◌, ◌||◌, Option, none, some, List, [],
  ◌∷◌, leb, ltb, contains, if◌then◌else◌, length, nat_key, ◌==◌, is_some,
}
use c_lord.Authorization.{Authorizer, Process, User, member, plain, is_allowed}

abbrev pub max_id_digits : ℕ
max_id_digits = 20

-- The digits of ASCII, by code point.
abbrev pub is_digit : ℕ → Bool
is_digit c = leb 48 c && leb c 57

abbrev pub all_digits : List ℕ → Bool
all_digits [] = true
all_digits (c ∷ cs) = is_digit c && all_digits cs

-- `text.isascii() and text.isdigit()`: an ASCII text that is not empty and has only digits.
unfoldable pub is_trusted_bot_id_text : List ℕ → Bool
is_trusted_bot_id_text [] = false
is_trusted_bot_id_text (c ∷ cs) = all_digits (c ∷ cs) && leb (length (c ∷ cs)) max_id_digits

-- `int(x)` of a text of digits.
unfoldable pub int_from : ℕ → List ℕ → ℕ
int_from acc [] = acc
int_from acc (c ∷ cs) = int_from (acc * 10 + (c - 48)) cs

unfoldable pub trusted_bot_ids : List (List ℕ) → List ℕ
unfolding is_trusted_bot_id_text int_from
trusted_bot_ids [] = []
trusted_bot_ids (x ∷ parts) =
    let rest = trusted_bot_ids parts in
    if is_trusted_bot_id_text x then int_from 0 x ∷ rest else rest

-- A message: whether a webhook sent it, whether it is c-lord's own voice (`is_voice_message`), and
-- its author.
pub record Message : Type 0 where
  pub webhook : Bool
  pub voice : Bool
  pub author : User
  pub author_id : ℕ
  pub author_is_bot : Bool

unfoldable pub is_message_authorized : List (List ℕ) → Message → (User → Bool) → Bool
unfolding trusted_bot_ids
is_message_authorized env m allowed =
    if m.webhook
    then not m.voice
    else if m.author_is_bot
    then contains m.author_id (trusted_bot_ids env)
    else allowed m.author

unfoldable pub authorize_command :
    List (List ℕ) → Process → Option Authorizer → User → Option Message → Bool
unfolding is_message_authorized
authorize_command env p none user message = false
authorize_command env p (some a) user none = is_allowed a p user
authorize_command env p (some a) user (some m) = is_message_authorized env m (is_allowed a p)

-- What a lookup answers: a record, none, or an exception.
pub data Lookup : Type 0 where
  found absent raised : Lookup

abbrev pub claims : Lookup → Bool
claims found = true
claims absent = false
claims raised = false

-- The loop over the resolvers.
unfoldable pub any_resolver : List Lookup → Bool
any_resolver [] = false
any_resolver (answer ∷ answers) = if claims answer then true else any_resolver answers

abbrev pub same_channel : Option ℕ → Option ℕ → Bool
same_channel (some c) (some home) = c == home
same_channel _ _ = false

unfoldable pub owns : Option ℕ → Option ℕ → Option ℕ → List Lookup → Option Lookup → Bool
unfolding any_resolver
owns home channel thread resolvers session =
    if same_channel channel home
    then true
    else if is_some channel && any_resolver resolvers
    then true
    else elim session [
      | none ↦ false
      | some answer ↦ if is_some thread then claims answer else false
    ]
