-- ===== src/Claims/Names.antt =====
-- What session ids look like, and the history's lines (c_lord/transcript/claim.py).
use c_lord.Prelude.Texts.{Text, is_part, parts_of, parts_of-append, All-append, All-map}
use c_lord.Prelude.{
  ℕ, suc, ◌*◌, ◌<◌, Bool, true, false, ◌||◌, List, [], ◌∷◌, ◌≡◌, refl, ap, ◌∙◌, length,
  length-append, All, nat_key, ◌==◌, arith,
}
use c_lord.Claims.{is_hex, fits_slot, fits, is_session_id, session_id_slots, newline, lines_of}

abbrev pub is_name_char : ℕ → Bool
is_name_char c = is_hex c || (c == 45)

-- The text is ASCII.
abbrev pub IsAscii : Text → Type 0
IsAscii text = All (λ c. c < 128) text

is_name_char-fits_slot : (slot : Bool) (c : ℕ) → fits_slot slot c ≡ true → is_name_char c ≡ true
is_name_char-fits_slot true c h = ground (arith, h)
is_name_char-fits_slot false c h = ground (arith, h)

fits_chars :
    (slots : List Bool) (text : Text)
    → fits slots text ≡ true
    → All (λ c. is_name_char c ≡ true) text
fits_chars [] [] h = tt
fits_chars [] (c ∷ text) h = absurd (ground (arith, h))
fits_chars (slot ∷ slots) [] h = absurd (ground (arith, h))
fits_chars (slot ∷ slots) (c ∷ text) h =
    (is_name_char-fits_slot slot c (ground (arith, h)), fits_chars slots text (ground (arith, h)))

length-fits :
    (slots : List Bool) (text : Text) → fits slots text ≡ true → length text ≡ length slots
length-fits [] [] h = refl
length-fits [] (c ∷ text) h = absurd (ground (arith, h))
length-fits (slot ∷ slots) [] h = absurd (ground (arith, h))
length-fits (slot ∷ slots) (c ∷ text) h = ap suc (length-fits slots text (ground (arith, h)))

pub length-is_session_id : (id : Text) → is_session_id id ≡ true → length id ≡ 36
unfolding is_session_id
length-is_session_id id h = length-fits session_id_slots id h

pub is_session_id_chars :
    (id : Text) → is_session_id id ≡ true → All (λ c. is_name_char c ≡ true) id
unfolding is_session_id
is_session_id_chars id h = fits_chars session_id_slots id h

pub is_part-is_session_id : (id : Text) → is_session_id id ≡ true → is_part id ≡ true
is_part-is_session_id [] h = absurd (omega (arith, length-is_session_id [] h))
is_part-is_session_id (c ∷ id) h = refl

is_name_char-lt : (c : ℕ) → is_name_char c ≡ true → c < 128
is_name_char-lt c h = ground (arith, h)

pub is_session_id-IsAscii : (id : Text) → is_session_id id ≡ true → IsAscii id
is_session_id-IsAscii id h = All-map _ _ is_name_char-lt id (is_session_id_chars id h)

abbrev pub IsIds : List Text → Type 0
IsIds ids = All (λ i. is_session_id i ≡ true) ids

pub length-lines_of : (ids : List Text) → IsIds ids → length (lines_of ids) ≡ 37 * length ids
length-lines_of [] h = omega arith
length-lines_of (id ∷ ids) h = omega (
  arith,
  length-append id (newline ∷ lines_of ids),
  length-is_session_id id h.0,
  length-lines_of ids h.1,
)

pub lines_of-IsAscii : (ids : List Text) → IsIds ids → IsAscii (lines_of ids)
lines_of-IsAscii [] h = tt
lines_of-IsAscii (id ∷ ids) h =
    All-append _ id (newline ∷ lines_of ids) (is_session_id-IsAscii id h.0)
      (omega arith, lines_of-IsAscii ids h.1)

module _ (is_space : ℕ → Bool) (solid : (c : ℕ) → is_name_char c ≡ true → is_space c ≡ false) where
  pub is_session_id_solid : (id : Text) → is_session_id id ≡ true → All (λ c. is_space c ≡ false) id
  is_session_id_solid id h = All-map _ _ solid id (is_session_id_chars id h)

  pub parts_of-lines_of :
      is_space newline ≡ true
      → (ids : List Text) → IsIds ids
      → parts_of is_space (lines_of ids) ≡ ids
  parts_of-lines_of h [] k = refl
  parts_of-lines_of h (id ∷ ids) k =
      parts_of-append is_space newline id (lines_of ids) h (is_session_id_solid id k.0)
        (is_part-is_session_id id k.0)
      ∙ ap (λ r. id ∷ r) (parts_of-lines_of h ids k.1)
