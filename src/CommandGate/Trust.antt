-- ===== src/CommandGate/Trust.antt =====
-- Who may drive c-lord by a message (c_lord/command_gate.py).
use c_lord.Prelude.{
  ℕ, zero, suc, ◌+◌, ◌*◌, ◌-◌, ◌≤◌, ◌<◌, true, false, ◌||◌, none, some, List, [], ◌∷◌, ◌++◌, length,
  nat_key, All, ◌≡◌, refl, inl, inr, arith, Bool-cases,
}
use c_lord.Authorization.{Authorizer, Process, User}
use c_lord.CommandGate.{
  all_digits, is_trusted_bot_id_text, int_from, trusted_bot_ids, Message, authorize_command,
  max_id_digits,
}

-- The powers of ten.
power_of_ten : ℕ → ℕ
power_of_ten zero = 1
power_of_ten (suc n) = 10 * power_of_ten n

power_of_ten-pos : (n : ℕ) → 1 ≤ power_of_ten n
unfolding power_of_ten
power_of_ten-pos zero = omega arith
power_of_ten-pos (suc n) = omega (arith, power_of_ten-pos n)

power_of_ten_mono : (n m : ℕ) → n ≤ m → power_of_ten n ≤ power_of_ten m
unfolding power_of_ten
power_of_ten_mono zero m h = power_of_ten-pos m
power_of_ten_mono (suc n) zero h = absurd (omega arith)
power_of_ten_mono (suc n) (suc m) h = omega (arith, power_of_ten_mono n m (omega arith))

scale : (a b p : ℕ) → a ≤ b → a * p ≤ b * p
scale a b p h = grind arith

int_from-lt :
    (acc : ℕ) (cs : List ℕ)
    → all_digits cs ≡ true
    → int_from acc cs < (acc + 1) * power_of_ten (length cs)
unfolding int_from power_of_ten
int_from-lt acc [] h = omega arith
int_from-lt acc (c ∷ cs) h =
    let digit : c - 48 ≤ 9 = ground arith in
    let rest : all_digits cs ≡ true = ground arith in
    let p = power_of_ten (length cs) in
    let step : (acc * 10 + (c - 48) + 1) * p ≤ ((acc + 1) * 10) * p =
      scale (acc * 10 + (c - 48) + 1) ((acc + 1) * 10) p (omega arith) in
    omega (arith, int_from-lt (acc * 10 + (c - 48)) cs rest, step)

id-lt : (x : List ℕ) → is_trusted_bot_id_text x ≡ true → int_from 0 x < 100000000000000000000
unfolding is_trusted_bot_id_text power_of_ten
id-lt [] h = absurd (cc)
id-lt (c ∷ cs) h =
    let digits : all_digits (c ∷ cs) ≡ true = ground arith in
    let short : length (c ∷ cs) ≤ max_id_digits = ground arith in
    omega (
      arith,
      int_from-lt 0 (c ∷ cs) digits,
      power_of_ten_mono (length (c ∷ cs)) max_id_digits short,
    )

-- Whatever stands in CLORD_TRUSTED_BOT_IDS, every id that is read from it has at most 20 digits.
pub trusted_bot_ids-lt :
    (env : List (List ℕ)) → All (λ id. id < 100000000000000000000) (trusted_bot_ids env)
unfolding trusted_bot_ids
trusted_bot_ids-lt [] = tt
trusted_bot_ids-lt (x ∷ parts) = elim (Bool-cases (is_trusted_bot_id_text x)) [
  | inl e ↦ rw e (id-lt x e, trusted_bot_ids-lt parts)
  | inr e ↦ rw e (trusted_bot_ids-lt parts)
]

-- An entry that is no id changes nothing: the ids listed before and after it are still trusted.
pub trusted_bot_ids-skip :
    (before : List (List ℕ)) (bad : List ℕ) (after : List (List ℕ))
    → is_trusted_bot_id_text bad ≡ false
    → trusted_bot_ids (before ++ (bad ∷ after)) ≡ trusted_bot_ids (before ++ after)
unfolding trusted_bot_ids
trusted_bot_ids-skip [] bad after h = rw h
trusted_bot_ids-skip (x ∷ before) bad after h =
    ground (arith, trusted_bot_ids-skip before bad after h)

-- The allowlist decides about people alone: for a webhook or a bot any two allowlists give the same
-- answer, no message in c-lord's own voice is obeyed, and without an authorizer nobody is.
pub authorize_command_automation :
    (env : List (List ℕ)) (p q : Process) (a b : Authorizer) (user : User) (m : Message)
    → (m.webhook || m.author_is_bot) ≡ true
    → (authorize_command env p (some a) user (some m)
        ≡ authorize_command env q (some b) user (some m))
      × (m.webhook ≡ true → m.voice ≡ true → authorize_command env p (some a) user (some m) ≡ false)
      × (authorize_command env p none user (some m) ≡ false)
unfolding authorize_command
authorize_command_automation env p q a b user m h = (ground arith, λ w v. ground arith, refl)
