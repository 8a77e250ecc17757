-- ===== src/Resolver/Whole.antt =====
-- The loop over the slices and the search of the whole file (c_lord/transcript/resolver.py,
-- `is_clord_driven_jsonl`).
use c_lord.Prelude.Texts.{Text, last_of, last_of_few, is_part}
use c_lord.Prelude.{
  ℕ, zero, suc, ◌≤◌, true, ◌↔◌, inl, inr, Bool-cases, [], ◌∷◌, ◌++◌, ◌≡◌, refl, ap, sym, ◌∙◌, take,
  length, length-append, leb, nat_key, arith,
}
use c_lord.Claims.Successor.{starts_with}
use c_lord.Tail.Lines.{append_assoc}
use c_lord.Resolver.Marker.{
  clord_input_marker, has_context, marker_from, buffer_has_marker, drop, probe_slices,
}
use c_lord.Resolver.Slices.{
  is_hit, last_of_splits, marker_from-hit, hit-marker_from, take-drop, probe_slices-hit,
}

starts_with-longer :
    (prefix r s : Text) → starts_with prefix r ≡ true → starts_with prefix (r ++ s) ≡ true
starts_with-longer [] r s h = refl
starts_with-longer (p ∷ prefix) [] s h = absurd (ground (arith, h))
starts_with-longer (p ∷ prefix) (c ∷ r) s h = ground (arith, h, starts_with-longer prefix r s)

has_context-append : (q w : Text) → has_context w ≡ true → has_context (q ++ w) ≡ true
unfolding has_context
has_context-append [] w h = h
has_context-append (c ∷ q) w h = let rest = has_context-append q w h in ground (arith, rest)

-- A longer text ends in at least as much.
last_of-longer : (k : ℕ) (q w : Text) → (p : Text) × (last_of k (q ++ w) ≡ p ++ last_of k w)
last_of-longer k [] w = ([], refl)
last_of-longer k (c ∷ q) w = elim (Bool-cases (leb (suc (length (q ++ w))) k)) [
  | inr many ↦ let (p, e) = last_of-longer k q w in rw (last_of, many) (p, e)
  | inl few ↦
      let short : length w ≤ k = ground (arith, few, length-append q w) in
      (c ∷ q, rw (last_of, few) (ap (λ z. (c ∷ q) ++ z) (sym (last_of_few k w short))))
]

hit-longer : (q b r s : Text) → is_hit b r ≡ true → is_hit (q ++ b) (r ++ s) ≡ true
hit-longer q b r s h =
    let mark = starts_with-longer clord_input_marker r s (ground (arith, h)) in
    let (p, e) = last_of-longer 64 q b in
    let context = ap has_context e ∙ has_context-append p (last_of 64 b) (ground (arith, h)) in
    ground (arith, mark, context)

probe_slices-whole :
    (n fuel : ℕ) (q carry raw : Text)
    → probe_slices n fuel carry raw ≡ true
    → buffer_has_marker ((q ++ carry) ++ raw) ≡ true
unfolding probe_slices buffer_has_marker
probe_slices-whole n zero q carry raw h = absurd (ground (arith, h))
probe_slices-whole n (suc fuel) q carry raw h =
    let chunk = take n raw in
    let left = drop n raw in
    let cut : (q ++ carry) ++ (chunk ++ left) ≡ (q ++ carry) ++ raw =
      ap (λ z. (q ++ carry) ++ z) (take-drop n raw) in
    elim (Bool-cases (is_part chunk)) [
      | inr bare ↦ absurd (ground (arith, rw (probe_slices, bare) at h))
      | inl some_part ↦ elim (Bool-cases (buffer_has_marker (carry ++ chunk))) [
        | inl found ↦
            let (b, r, e, hit) = marker_from-hit [] (carry ++ chunk) found in
            let regroup : (q ++ b) ++ (r ++ left) ≡ (q ++ carry) ++ (chunk ++ left) =
              append_assoc q b (r ++ left)
              ∙ ap (λ z. q ++ z)
                  (sym (append_assoc b r left)
                    ∙ ap (λ z. z ++ left) (sym e)
                    ∙ append_assoc carry chunk left)
              ∙ sym (append_assoc q carry (chunk ++ left)) in
            ap (marker_from []) (sym (regroup ∙ cut))
            ∙ hit-marker_from [] (q ++ b) (r ++ left) (hit-longer q b r left hit)
        | inr missed ↦
            let (s, splits) = last_of_splits 67 chunk in
            let rest =
              probe_slices-whole n fuel ((q ++ carry) ++ s) (last_of 67 chunk) left
                (rw (probe_slices, some_part, missed) at h) in
            let seen : ((q ++ carry) ++ s) ++ last_of 67 chunk ≡ (q ++ carry) ++ chunk =
              append_assoc (q ++ carry) s (last_of 67 chunk)
              ∙ ap (λ z. (q ++ carry) ++ z) (sym splits) in
            ap (marker_from [])
              (sym (ap (λ z. z ++ left) seen ∙ append_assoc (q ++ carry) chunk left ∙ cut))
            ∙ rest
      ]
    ]

-- For slices of any size from 67 bytes on, and with fuel of one more than the bytes, the loop over the
-- slices finds the mark with its context exactly if the search of all the bytes at once does.
pub probe_slices_iff :
    (n : ℕ) (raw : Text)
    → 67 ≤ n
    → (probe_slices n (suc (length raw)) [] raw ≡ true) ↔ (buffer_has_marker raw ≡ true)
unfolding buffer_has_marker
probe_slices_iff n raw big = (
  λ h. probe_slices-whole n (suc (length raw)) [] [] raw h,
  λ h.
      let (b, r, e, hit) = marker_from-hit [] raw h in
      probe_slices-hit n big (suc (length raw)) [] [] raw b r (omega arith) e hit (omega arith)
        (inl refl),
)
