-- ===== src/AskBus/Notes.antt =====
-- Why a menu closed (c_lord/discord_ui/ask_bus.py, `note_closed` and `closed_reason`).
use c_lord.Prelude.{
  ℕ, ◌+◌, ◌≤◌, true, false, not, none, some, [], ◌∷◌, ◌++◌, ◌≡◌, ◌≢◌, inl, inr, Bool-cases,
  Option-cases, length, if◌then◌else◌, arith, keep, nat_key, ltb, leb,
}
use c_lord.Prelude.Dict.{
  Dict, get, insert, IsUnique, get-insert, insert-IsUnique, insert_new, length-insert, has-keep,
  keep-append_last, get-keep_sound,
}
use c_lord.Prelude.Fifo.{evict, evict_of_length-le, get-evict_last, get-evict_sound}
use c_lord.AskBus.{
  Bus, Reason, note_closed, closed_reason, drop_stale, is_stale, max_close_notes, close_note_ttl,
}
use c_lord.AskBus.Ownership.{IsConsistent, drop_stale-IsUnique}

abbrev Notes : Type 0
Notes = Dict ℕ (ℕ × Reason)

-- The thread's own note is never among the ones that make room.
get-note_self :
    (t : ℕ) (reason : Reason) (now : ℕ) (d : Notes)
    → length d ≤ max_close_notes
    → get t (evict max_close_notes (drop_stale now (insert t (now, reason) d))) ≡ some (now, reason)
unfolding drop_stale
get-note_self t reason now d h = elim (Option-cases (get t d)) [
  | inr (old, e) ↦
      let n : length (insert t (now, reason) d) ≡ length d =
        ground (arith, length-insert t (now, reason) d) in
      let fits : ltb max_close_notes (length (insert t (now, reason) d)) ≡ false = ground arith in
      rw (fits, evict_of_length-le max_close_notes (insert t (now, reason) d) (omega arith))
        (ground (arith, get-insert t t (now, reason) d))
  | inl e ↦ rw (insert_new t (now, reason) d e) (appended e)
]
  where
    fresh : not (is_stale now now) ≡ true
    fresh = ground arith

    appended :
        get t d ≡ none
        → get t (
            evict max_close_notes (
              if ltb max_close_notes (length (d ++ ((t, (now, reason)) ∷ [])))
              then keep (λ p. not (is_stale now p.1.0)) (d ++ ((t, (now, reason)) ∷ []))
              else d ++ ((t, (now, reason)) ∷ [])))
          ≡ some (now, reason)
    appended e = elim (Bool-cases (ltb max_close_notes (length (d ++ ((t, (now, reason)) ∷ []))))) [
      | inr k ↦ rw k (get-evict_last 511 t (now, reason) d e)
      | inl k ↦
          rw (k, keep-append_last (λ p. not (is_stale now p.1.0)) (t, (now, reason)) d fresh)
            (get-evict_last 511 t (now, reason) (keep (λ p. not (is_stale now p.1.0)) d)
              (ground (arith, has-keep (λ p. not (is_stale now p.1.0)) t d)))
    ]

-- The reason that was noted is what a late click reads, until the note is 24 hours old and nothing
-- from then on, however many other notes had to make room.
pub closed_reason-note_closed_self :
    (t : ℕ) (reason : Reason) (now later : ℕ) (b : Bus)
    → IsConsistent b
    → (closed_reason t later (note_closed t reason now b)).1
      ≡ (if leb (now + close_note_ttl) later then none else some reason)
unfolding closed_reason note_closed
closed_reason-note_closed_self t reason now later b c =
    ground (arith, get-note_self t reason now b.closed c.bounded)

get-drop_stale_sound :
    (now u : ℕ) (v : ℕ × Reason) (d : Notes)
    → IsUnique d
    → get u (drop_stale now d) ≡ some v
    → get u d ≡ some v
unfolding drop_stale
get-drop_stale_sound now u v d q h = elim (Bool-cases (ltb max_close_notes (length d))) [
  | inl e ↦ get-keep_sound (λ p. not (is_stale now p.1.0)) u v d q (rw e at h)
  | inr e ↦ rw e at h
]

-- A note about one thread never changes what another thread's late click is told: a reason that is
-- read afterwards was readable before.
pub closed_reason-note_closed_ne :
    (t u : ℕ) (reason told : Reason) (now later : ℕ) (b : Bus)
    → IsConsistent b
    → t ≢ u
    → (closed_reason u later (note_closed t reason now b)).1 ≡ some told
    → (closed_reason u later b).1 ≡ some told
unfolding closed_reason note_closed
closed_reason-note_closed_ne t u reason told now later b c ne h =
    elim (Option-cases (get u (evict max_close_notes (drop_stale now d)))) [
      | inl e ↦ absurd (ground arith)
      | inr (v, e) ↦
          let was : get u b.closed ≡ some v =
            ground (arith, get-insert t u (now, reason) b.closed, kept v e) in
          ground arith
    ]
  where
    d : Notes
    d = insert t (now, reason) b.closed

    kept :
        (v : ℕ × Reason)
        → get u (evict max_close_notes (drop_stale now d)) ≡ some v
        → get u d ≡ some v
    kept v e =
        let q : IsUnique d = insert-IsUnique t (now, reason) b.closed c.distinct in
        get-drop_stale_sound now u v d q
          (get-evict_sound max_close_notes u v (drop_stale now d) (drop_stale-IsUnique now d q) e)
