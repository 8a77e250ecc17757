-- ===== src/TurnProgress/Ledger.antt =====
-- What becomes of the lines that are posted (c_lord/discord_ui/turn_progress.py).
use c_lord.Prelude.{
  ℕ, ◌+◌, ◌-◌, ◌≤◌, ◌<◌, Bool, true, false, not, ◌&&◌, Option, none, some, List, [], ◌∷◌, ◌++◌, All,
  if◌then◌else◌, if_cases, nat_key, string_key, ◌==◌, leb, ltb, ◌≡◌, sym, subst, inl, inr, arith,
  Option-cases,
}
use c_lord.TurnProgress.{
  Settings, Progress, max_delete_retries, keep_leftover, delete_or_keep, remove_line, retry_all,
  retry_leftovers, Line, render, show, tick,
}

-- How often a handle stands in a list.
abbrev pub count : ℕ → List ℕ → ℕ
count h [] = 0
count h (x ∷ xs) = (if x == h then 1 else 0) + count h xs

abbrev pub count_pending : ℕ → List (ℕ × ℕ) → ℕ
count_pending h [] = 0
count_pending h ((x, attempts) ∷ xs) = (if x == h then 1 else 0) + count_pending h xs

abbrev pub count_current : ℕ → Option ℕ → ℕ
count_current h none = 0
count_current h (some x) = if x == h then 1 else 0

-- Every line that was posted is the one that is shown, or was deleted, or waits to be deleted again, or
-- was given up; each of them once for each time it was posted.
abbrev pub IsAccounted : Progress → Type 0
IsAccounted s =
    (h : ℕ)
    → count h s.posted
      ≡ count_current h s.handle
        + (count h s.deleted + (count_pending h s.leftovers + count h s.given_up))

-- A line waits after at least one attempt and before the last.
abbrev pub IsPending : ℕ × ℕ → Type 0
IsPending p = (1 ≤ p.1) × (p.1 < max_delete_retries)

pub record IsSound (s : Progress) : Type 0 where
  pub accounted : IsAccounted s
  pub pending : All IsPending s.leftovers

-- `extra` is a line that is out of the fields, about to be deleted.
abbrev AlmostAccounted : List (ℕ × ℕ) → Progress → Type 0
AlmostAccounted extra s =
    (h : ℕ)
    → count h s.posted
      ≡ count_pending h extra
        + (count_current h s.handle
            + (count h s.deleted + (count_pending h s.leftovers + count h s.given_up)))

count_pending-append :
    (h : ℕ) (a b : List (ℕ × ℕ)) → count_pending h (a ++ b) ≡ count_pending h a + count_pending h b
count_pending-append h [] b = omega arith
count_pending-append h ((x, n) ∷ a) b = omega (arith, count_pending-append h a b)

All-append_last :
    {A : Type 0} (P : A → Type 0) (a : List A) (x : A) → All P a → P x → All P (a ++ (x ∷ []))
All-append_last P [] x h k = (k, tt)
All-append_last P (y ∷ a) x h k = (h.0, All-append_last P a x h.1 k)

record IsOwing (extra : List (ℕ × ℕ)) (s : Progress) : Type 0 where
  almost : AlmostAccounted extra s
  pending : All IsPending s.leftovers

delete_or_keep-IsOwing :
    (now handle attempts : ℕ) (extra : List (ℕ × ℕ)) (s : Progress)
    → attempts < max_delete_retries
    → IsOwing ((handle, attempts) ∷ extra) s
    → IsOwing extra (delete_or_keep now handle attempts s)
unfolding delete_or_keep keep_leftover
delete_or_keep-IsOwing now handle attempts extra s few o =
    elim (s.deletions)
      as (λ ds. IsOwing extra (delete_or_keep now handle attempts (record s { deletions = ds }))) [
        | [] ↦ record { almost = λ h. omega (arith, o.almost h); pending = o.pending }
        | true ∷ ds ↦ record { almost = λ h. omega (arith, o.almost h); pending = o.pending }
        | false ∷ ds ↦
            let tried : Progress = record s { deletions = ds; leftover_tried = now } in
            let last : Progress = record tried { given_up = handle ∷ s.given_up } in
            let waits : Progress = record tried {
              leftovers = s.leftovers ++ ((handle, attempts + 1) ∷ []);
            } in
            if_cases (IsOwing extra) (leb max_delete_retries (attempts + 1)) last waits
              (λ over. record { almost = λ h. omega (arith, o.almost h); pending = o.pending })
              (λ again. record {
                almost = λ h. omega (
                  arith,
                  o.almost h,
                  count_pending-append h s.leftovers ((handle, attempts + 1) ∷ []),
                );
                pending =
                    All-append_last IsPending s.leftovers (handle, attempts + 1) o.pending
                      (omega arith, ground (arith, again));
              })
      ]

IsOwing-of_sound : (s : Progress) → IsSound s → IsOwing [] s
IsOwing-of_sound s i = record { almost = λ h. omega (arith, i.accounted h); pending = i.pending }

IsSound-of_owing : (s : Progress) → IsOwing [] s → IsSound s
IsSound-of_owing s o = record { accounted = λ h. omega (arith, o.almost h); pending = o.pending }

retry_all-IsSound :
    (now : ℕ) (pending : List (ℕ × ℕ)) (s : Progress)
    → All IsPending pending
    → IsOwing pending s
    → IsSound (retry_all now pending s)
unfolding retry_all
retry_all-IsSound now [] s few o = IsSound-of_owing s o
retry_all-IsSound now ((handle, attempts) ∷ pending) s few o =
    retry_all-IsSound now pending (delete_or_keep now handle attempts s) few.1
      (delete_or_keep-IsOwing now handle attempts pending s few.0.1 o)

pub retry_leftovers-IsSound :
    (config : Settings) (now : ℕ) (force : Bool) (s : Progress)
    → IsSound s
    → IsSound (retry_leftovers config now force s)
unfolding retry_leftovers
retry_leftovers-IsSound config now force s i =
    let emptied : Progress = record s { leftovers = [] } in
    if_cases IsSound (not force && ltb (now - s.leftover_tried) config.update_seconds) s
      (retry_all now s.leftovers emptied) (λ early. i)
      (λ due.
        retry_all-IsSound now s.leftovers emptied i.pending
          (record { almost = λ h. omega (arith, i.accounted h); pending = tt }))

pub removes :
    (now : ℕ) (s : Progress) (handle : ℕ)
    → s.handle ≡ some handle
    → remove_line now s ≡ delete_or_keep now handle 0 (record s { handle = none })
unfolding remove_line
removes now s handle here = ground (arith, here)

pub remove_line-IsSound : (now : ℕ) (s : Progress) → IsSound s → IsSound (remove_line now s)
unfolding remove_line
remove_line-IsSound now s i = elim (Option-cases s.handle) [
  | inl nothing ↦ rw (remove_line, nothing) i
  | inr (handle, here) ↦
      let taken : Progress = record s { handle = none } in
      subst IsSound (sym (removes now s handle here)) (
        IsSound-of_owing (delete_or_keep now handle 0 taken) (
          delete_or_keep-IsOwing now handle 0 [] taken (omega arith) (record {
            almost = λ h. omega (arith, rw here at (i.accounted h));
            pending = i.pending;
          })))
]

show-IsSound :
    (config : Settings) (now : ℕ) (post : Option ℕ) (s : Progress)
    → IsSound s
    → IsSound (show config now post s).0
unfolding show
show-IsSound config now post s i =
    let P : Progress × Option Line → Type 0 = λ r. IsSound r.0 in
    let body = render config now s in
    let edited : Progress = record s { last_edit = now } in
    elim (Option-cases s.handle) [
      | inr (shown, here) ↦
          rw (show, here)
            (if_cases P (leb config.update_seconds (now - s.last_edit)) (edited, some body)
              (s, none) (λ due. record { accounted = i.accounted; pending = i.pending })
              (λ early. i))
      | inl nothing ↦ elim post as (λ p. IsSound (show config now p s).0) [
        | none ↦ rw (show, nothing) i
        | some handle ↦
            rw (show, nothing)
              (record {
                accounted = λ h. omega (arith, rw nothing at (i.accounted h));
                pending = i.pending;
              })
      ]
    ]

pub tick-IsSound :
    (config : Settings) (now : ℕ) (post : Option ℕ) (s : Progress)
    → IsSound s
    → IsSound (tick config now post s).0
unfolding tick
tick-IsSound config now post s i =
    let m = retry_leftovers config now false s in
    let j = retry_leftovers-IsSound config now false s i in
    let P : Progress × Option Line → Type 0 = λ r. IsSound r.0 in
    if_cases P (not m.armed) (remove_line now m, none)
      (if ltb (now - m.last_output) config.quiet_seconds then (m, none) else show config now post m)
      (λ idle. remove_line-IsSound now m j)
      (λ armed.
        if_cases P (ltb (now - m.last_output) config.quiet_seconds) (m, none)
          (show config now post m) (λ quiet. j) (λ silent. show-IsSound config now post m j))
