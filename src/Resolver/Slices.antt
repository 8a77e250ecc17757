-- ===== src/Resolver/Slices.antt =====
-- No mark is missed between two slices (c_lord/transcript/resolver.py, `is_clord_driven_jsonl`).
use c_lord.Prelude.Texts.{Text, last_of, is_part}
use c_lord.Prelude.{
  ℕ, zero, suc, ◌+◌, ◌≤◌, ◌<◌, Bool, true, false, ◌&&◌, ◌⊎◌, inl, inr, Bool-cases, [], ◌∷◌, ◌++◌,
  ◌≡◌, refl, ap, sym, ◌∙◌, take, length, length-append, length-take, leb, nat_key, ◌==◌, arith,
}
use c_lord.Claims.Successor.{starts_with}
use c_lord.Tail.Lines.{append_assoc, append_nil}
use c_lord.Resolver.Marker.{
  clord_input_marker, marker_lookback, has_context, marker_from, buffer_has_marker, drop,
  probe_slices,
}

split-append :
    (q x b r : Text)
    → q ++ x ≡ b ++ r
    → length q ≤ length b
    → (d : Text) × (b ≡ q ++ d) × (x ≡ d ++ r)
split-append [] x b r e h = (b, refl, e)
split-append (c ∷ q) x [] r e h = absurd (omega (arith, h))
split-append (c ∷ q) x (d ∷ b) r e h =
    let tail : q ++ x ≡ b ++ r = ground (arith, e) in
    let head : d ≡ c = ground (arith, e) in
    let (rest, same, left) = split-append q x b r tail (omega (arith, h)) in
    (rest, ground (arith, head, same), left)

starts_with-append :
    (prefix r s : Text)
    → length prefix ≤ length r
    → starts_with prefix (r ++ s) ≡ true
    → starts_with prefix r ≡ true
starts_with-append [] r s h e = refl
starts_with-append (p ∷ prefix) [] s h e = absurd (omega (arith, h))
starts_with-append (p ∷ prefix) (c ∷ r) s h e =
    ground (arith, e, starts_with-append prefix r s (omega (arith, h)))

length-starts_with : (prefix r : Text) → starts_with prefix r ≡ true → length prefix ≤ length r
length-starts_with [] r e = omega arith
length-starts_with (p ∷ prefix) [] e = absurd (ground (arith, e))
length-starts_with (p ∷ prefix) (c ∷ r) e = elim (Bool-cases (p == c)) [
  | inl same ↦ omega (arith, length-starts_with prefix r (rw same at e))
  | inr other ↦ absurd (ground (arith, rw other at e))
]

last_of-append : (k : ℕ) (q w : Text) → k ≤ length w → last_of k (q ++ w) ≡ last_of k w
last_of-append k [] w h = refl
last_of-append k (c ∷ q) w h =
    let long : leb (suc (length (q ++ w))) k ≡ false = ground (arith, h, length-append q w) in
    rw (last_of, long) (last_of-append k q w h)

pub last_of_splits : (k : ℕ) (w : Text) → (q : Text) × (w ≡ q ++ last_of k w)
last_of_splits k [] = ([], refl)
last_of_splits k (c ∷ w) = elim (Bool-cases (leb (suc (length w)) k)) [
  | inl few ↦ rw few ([], refl)
  | inr many ↦ let (q, e) = last_of_splits k w in rw many (c ∷ q, ap (λ t. c ∷ t) e)
]

length-last_of : (k : ℕ) (w : Text) → k ≤ length w → length (last_of k w) ≡ k
length-last_of k [] h = omega (arith, h)
length-last_of k (c ∷ w) h = elim (Bool-cases (leb (suc (length w)) k)) [
  | inl few ↦ rw few (ground (arith, few, h))
  | inr many ↦ rw many (length-last_of k w (ground (arith, many)))
]

-- The mark stands in front of `rest`, with its context in `before`.
abbrev pub is_hit : Text → Text → Bool
is_hit before rest =
    starts_with clord_input_marker rest && has_context (last_of marker_lookback before)

pub marker_from-hit :
    (before rest : Text)
    → marker_from before rest ≡ true
    → (b : Text) × (r : Text) × (rest ≡ b ++ r) × (is_hit (before ++ b) r ≡ true)
marker_from-hit before [] h = absurd (ground (arith, h))
marker_from-hit before (c ∷ rest) h = elim (Bool-cases (is_hit before (c ∷ rest))) [
  | inl hit ↦ ([], c ∷ rest, refl, ap (λ z. is_hit z (c ∷ rest)) (append_nil before) ∙ hit)
  | inr other ↦
      let (b, r, e, hit) = marker_from-hit (before ++ (c ∷ [])) rest (rw other at h) in
      (
        c ∷ b,
        r,
        ap (λ t. c ∷ t) e,
        ap (λ z. is_hit z r) (sym (append_assoc before (c ∷ []) b)) ∙ hit,
      )
]

pub hit-marker_from :
    (before b r : Text) → is_hit (before ++ b) r ≡ true → marker_from before (b ++ r) ≡ true
hit-marker_from before [] [] h = absurd (ground (arith, h))
hit-marker_from before [] (c ∷ r) h =
    let here : is_hit before (c ∷ r) ≡ true =
      ap (λ z. is_hit z (c ∷ r)) (sym (append_nil before)) ∙ h in
    rw here refl
hit-marker_from before (c ∷ b) r h =
    let later =
      hit-marker_from (before ++ (c ∷ [])) b r
        (ap (λ z. is_hit z r) (append_assoc before (c ∷ []) b) ∙ h) in
    ground (arith, later)

pub take-drop : (n : ℕ) (raw : Text) → take n raw ++ drop n raw ≡ raw
take-drop zero raw = refl
take-drop (suc n) [] = refl
take-drop (suc n) (c ∷ raw) = ap (λ t. c ∷ t) (take-drop n raw)

-- A hit that ends in the buffer, and not in front of it, is found in the buffer.
hit-in_buffer :
    (q carry chunk rest before after : Text)
    → (q ++ carry) ++ (chunk ++ rest) ≡ before ++ after
    → is_hit before after ≡ true
    → length (q ++ carry) < length before + 3
    → length before + 3 ≤ length (q ++ carry) + length chunk
    → (length q ≡ 0) ⊎ (67 ≤ length carry)
    → buffer_has_marker (carry ++ chunk) ≡ true
unfolding buffer_has_marker
hit-in_buffer q carry chunk rest before after e hit starts ends full =
    let sizes = length-append q carry in
    let whole : q ++ ((carry ++ chunk) ++ rest) ≡ before ++ after =
      ap (λ z. q ++ z) (append_assoc carry chunk rest)
      ∙ sym (append_assoc q carry (chunk ++ rest))
      ∙ e in
    let far : length q ≤ length before = omega (arith, sizes, starts, full) in
    let (b, at, left) = split-append q ((carry ++ chunk) ++ rest) before after whole far in
    let placed : length before ≡ length q + length b = ap length at ∙ length-append q b in
    let inside : length b + 3 ≤ length (carry ++ chunk) =
      omega (arith, sizes, placed, ends, length-append carry chunk) in
    let (r, cut, tail) =
      split-append b after (carry ++ chunk) rest (sym left) (omega (arith, inside)) in
    let size : length (carry ++ chunk) ≡ length b + length r = ap length cut ∙ length-append b r in
    let mark : starts_with clord_input_marker r ≡ true =
      starts_with-append clord_input_marker r rest (omega (arith, size, inside))
        (ap (starts_with clord_input_marker) (sym tail) ∙ ground (arith, hit)) in
    let window : last_of 64 before ≡ last_of 64 b =
      ap (last_of 64) at ∙ same_window q b sizes placed starts full in
    let context : has_context (last_of 64 b) ≡ true =
      ap has_context (sym window) ∙ ground (arith, hit) in
    let here : is_hit ([] ++ b) r ≡ true = ground (arith, mark, context) in
    ap (marker_from []) cut ∙ hit-marker_from [] b r here
  where
    same_window :
        (p b : Text)
        → length (p ++ carry) ≡ length p + length carry
        → length before ≡ length p + length b
        → length (p ++ carry) < length before + 3
        → (length p ≡ 0) ⊎ (67 ≤ length carry)
        → last_of 64 (p ++ b) ≡ last_of 64 b
    same_window [] b sizes placed starts full = refl
    same_window (c ∷ p) b sizes placed starts (inl bare) = absurd (omega (arith, bare))
    same_window (c ∷ p) b sizes placed starts (inr long) =
        last_of-append 64 (c ∷ p) b (omega (arith, sizes, placed, starts, long))

is_part-length : (chunk : Text) → is_part chunk ≡ false → length chunk ≡ 0
is_part-length [] h = refl
is_part-length (c ∷ chunk) h = absurd (ground (arith, h))

part_length : (chunk : Text) → is_part chunk ≡ true → 1 ≤ length chunk
part_length [] h = absurd (ground (arith, h))
part_length (c ∷ chunk) h = omega arith

pub probe_slices-hit :
    (n : ℕ)
    → 67 ≤ n
    → (fuel : ℕ) (q carry raw before after : Text) → length raw < fuel
    → (q ++ carry) ++ raw ≡ before ++ after
    → is_hit before after ≡ true
    → length (q ++ carry) < length before + 3
    → (length q ≡ 0) ⊎ (67 ≤ length carry)
    → probe_slices n fuel carry raw ≡ true
unfolding probe_slices
probe_slices-hit n big zero q carry raw before after enough e hit starts full =
    absurd (omega (arith, enough))
probe_slices-hit n big (suc fuel) q carry raw before after enough e hit starts full =
    let chunk = take n raw in
    let left = drop n raw in
    let total : length (q ++ carry) + length raw ≡ length before + length after =
      sym (length-append (q ++ carry) raw) ∙ ap length e ∙ length-append before after in
    let marks : 3 ≤ length after =
      length-starts_with clord_input_marker after (ground (arith, hit)) in
    let taken = length-take n raw in
    let parts : length chunk + length left ≡ length raw =
      sym (length-append chunk left) ∙ ap length (take-drop n raw) in
    elim (Bool-cases (is_part chunk)) [
      | inr bare ↦
          absurd (omega (arith, total, marks, taken, big, starts, is_part-length chunk bare))
      | inl some_part ↦ elim (Bool-cases (buffer_has_marker (carry ++ chunk))) [
        | inl found ↦ rw (probe_slices, some_part, found) refl
        | inr missed ↦
            let cut : (q ++ carry) ++ (chunk ++ left) ≡ before ++ after =
              ap (λ z. (q ++ carry) ++ z) (take-drop n raw) ∙ e in
            let beyond : length (q ++ carry) + length chunk < length before + 3 =
              elim (Bool-cases (leb (length before + 3) (length (q ++ carry) + length chunk))) [
                | inr further ↦ ground (arith, further)
                | inl within ↦ absurd (
                    ground (
                      arith,
                      missed,
                      hit-in_buffer q carry chunk left before after cut hit starts
                          (ground (arith, within)) full,
                    ))
              ] in
            let long : 67 ≤ length chunk = omega (arith, total, marks, taken, big, beyond) in
            let (s, splits) = last_of_splits 67 chunk in
            let seen : ((q ++ carry) ++ s) ++ last_of 67 chunk ≡ (q ++ carry) ++ chunk =
              append_assoc (q ++ carry) s (last_of 67 chunk)
              ∙ ap (λ z. (q ++ carry) ++ z) (sym splits) in
            let size = ap length seen ∙ length-append (q ++ carry) chunk in
            let rest =
              probe_slices-hit n big fuel ((q ++ carry) ++ s) (last_of 67 chunk) left before after
                (omega (arith, parts, enough, part_length chunk some_part))
                (ap (λ z. z ++ left) seen ∙ append_assoc (q ++ carry) chunk left ∙ cut) hit
                (omega (arith, size, beyond)) (inr (omega (arith, length-last_of 67 chunk long))) in
            rw (probe_slices, some_part, missed) rest
      ]
    ]
