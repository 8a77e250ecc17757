-- ===== src/IdleSweep/Choice.antt =====
-- Whom `select_idle_workspaces` chooses (c_lord/idle_sweep.py).
use c_lord.Prelude.{
  ℕ, ◌-◌, ◌<◌, String, false, ◌||◌, Option, some, List, [], ◌∷◌, map, contains, nat_key, leb, ◌≡◌,
  ◌↔◌, inl, inr, refl, sym, ap, subst, ◌∙◌, arith, Bool-cases, Option-cases,
}
use c_lord.Prelude.Ranked.{In, sort, In-sort, In-sort_all, In-map, In-map_image}
use c_lord.Sessions.{SessionRecord, parse_timestamp}
use c_lord.IdleSweep.{is_closed, idle_entry, idle_aged, select_idle_workspaces}

module _ (strptime : String → String → Option ℕ) where
  -- A row that the sweep may act on, last used at `last`.
  pub record IsDue (now threshold : ℕ) (in_flight : List ℕ) (row : SessionRecord) (last : ℕ)
      : Type 0 where
    pub still_open : is_closed row.closed_at ≡ false
    pub not_running : contains row.thread_id in_flight ≡ false
    pub readable : parse_timestamp strptime row.last_used_at ≡ some last
    pub old : last < now - threshold

  module _ (now threshold : ℕ) (in_flight : List ℕ) where
    In-idle_aged :
        (records : List SessionRecord) (p : ℕ × ℕ)
        → In p (idle_aged strptime (now - threshold) in_flight records)
        → (row : SessionRecord) × In row records
          × (row.thread_id ≡ p.1)
          × IsDue now threshold in_flight row p.0
    unfolding idle_aged idle_entry
    In-idle_aged [] p i = absurd i
    In-idle_aged (r ∷ records) p i =
        let wider : In p (idle_aged strptime (now - threshold) in_flight records)
            → (row : SessionRecord) × In row (r ∷ records)
              × (row.thread_id ≡ p.1)
              × IsDue now threshold in_flight row p.0 =
          λ j. let (row, k, e, d) = In-idle_aged records p j in (row, inr k, e, d) in
        elim (Bool-cases (is_closed r.closed_at || contains r.thread_id in_flight)) [
          | inl skipped ↦ wider (rw skipped at i)
          | inr fit ↦ elim (Option-cases (parse_timestamp strptime r.last_used_at)) [
            | inl unread ↦ wider (rw (fit, unread) at i)
            | inr (last, read) ↦ elim (Bool-cases (leb (now - threshold) last)) [
              | inl fresh ↦ wider (rw (fit, read, fresh) at i)
              | inr old ↦ elim (rw (fit, read, old) at i) [
                | inl e ↦
                    let t : last ≡ p.0 = sym (ap (λ q. q.0) e) in
                    (
                      r,
                      inl refl,
                      sym (ap (λ q. q.1) e),
                      record {
                        still_open = ground arith;
                        not_running = ground arith;
                        readable = rw t at read;
                        old = rw⁻¹ t (ground arith);
                      },
                    )
                | inr j ↦ wider j
              ]
            ]
          ]
        ]

    In-idle_aged_head :
        (row : SessionRecord) (records : List SessionRecord) (last : ℕ)
        → IsDue now threshold in_flight row last
        → In (last, row.thread_id) (idle_aged strptime (now - threshold) in_flight (row ∷ records))
    unfolding idle_aged idle_entry
    In-idle_aged_head row records last d =
        let fit : (is_closed row.closed_at || contains row.thread_id in_flight) ≡ false =
          ground (arith, d.still_open, d.not_running) in
        let old : leb (now - threshold) last ≡ false = ground (arith, d.old) in
        rw (fit, d.readable, old) (inl refl)

    In-idle_aged_tail :
        (r : SessionRecord) (records : List SessionRecord) (p : ℕ × ℕ)
        → In p (idle_aged strptime (now - threshold) in_flight records)
        → In p (idle_aged strptime (now - threshold) in_flight (r ∷ records))
    unfolding idle_aged idle_entry
    In-idle_aged_tail r records p j =
        elim (Bool-cases (is_closed r.closed_at || contains r.thread_id in_flight)) [
          | inl skipped ↦ rw skipped j
          | inr fit ↦ elim (Option-cases (parse_timestamp strptime r.last_used_at)) [
            | inl unread ↦ rw (fit, unread) j
            | inr (last, read) ↦ elim (Bool-cases (leb (now - threshold) last)) [
              | inl fresh ↦ rw (fit, read, fresh) j
              | inr old ↦ rw (fit, read, old) (inr j)
            ]
          ]
        ]

    In-idle_aged_due :
        (records : List SessionRecord) (row : SessionRecord) (last : ℕ)
        → In row records
        → IsDue now threshold in_flight row last
        → In (last, row.thread_id) (idle_aged strptime (now - threshold) in_flight records)
    In-idle_aged_due [] row last i d = absurd i
    In-idle_aged_due (r ∷ records) row last (inl e) d =
        subst
          (λ q.
            In (last, row.thread_id) (idle_aged strptime (now - threshold) in_flight (q ∷ records)))
          e (In-idle_aged_head row records last d)
    In-idle_aged_due (r ∷ records) row last (inr i) d =
        In-idle_aged_tail r records (last, row.thread_id) (In-idle_aged_due records row last i d)

    -- The sweep visits exactly the threads that have a row which is not closed, which runs no turn, and
    -- whose time of last use can be read and lies strictly before the threshold.
    pub select_idle_workspaces_iff :
        (records : List SessionRecord) (t : ℕ)
        → In t (select_idle_workspaces strptime records now threshold in_flight) ↔ (
            (row : SessionRecord) × (last : ℕ) × In row records
            × (row.thread_id ≡ t)
            × IsDue now threshold in_flight row last)
    unfolding select_idle_workspaces
    select_idle_workspaces_iff records t =
        let aged = idle_aged strptime (now - threshold) in_flight records in
        (
          λ i.
              let (p, j, e) = In-map (λ (p : ℕ × ℕ). p.1) t (sort aged) i in
              let (row, k, f, d) = In-idle_aged records p (In-sort p aged j) in
              (row, p.0, k, f ∙ sym e, d),
          λ (row, last, k, f, d).
              subst (λ u. In u (map (λ (p : ℕ × ℕ). p.1) (sort aged))) f
                (In-map_image (λ (p : ℕ × ℕ). p.1) (last, row.thread_id) (sort aged)
                  (In-sort_all (last, row.thread_id) aged (In-idle_aged_due records row last k d))),
        )
