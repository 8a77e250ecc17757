-- ===== src/ResidentCap/Cap/Bounds.antt =====
-- How much one pass of the cap does (c_lord/resident_cap.py, `_enforce_cap`).
use c_lord.Prelude.{
  ℕ, suc, ◌+◌, ◌-◌, ◌≤◌, ◌<◌, String, Bool, true, false, Option, none, some, List, [], ◌∷◌, ◌++◌,
  contains, map, length, nat_key, leb, ◌≡◌, refl, inl, inr, arith, Bool-cases, Option-cases,
}
use c_lord.Prelude.Dict.{Dict}
use c_lord.Sessions.{SessionRecord}
use c_lord.ResidentCap.Sleep.{
  Loop, Fetch, cached, fetched, not_found, forbidden, failed, Answer, slept, refused, nothing,
  raised, Outcome, done, not_reached, not_slept, already_gone, Action, sleep, close, resolve_thread,
  sleep_one, in_order, minus, meet, close_known_gone,
}
use c_lord.ResidentCap.Cap.{
  World, Pass, in_flight_of, keep_books, release_used, last_used_in, after_failure, begin_attempt,
  skip_unreached, settle, visit, visit_all, victims_of, enforce_counted, idle_pass, enforce_cap,
}

-- How many sleeps were called.
abbrev pub sleeps : List Action → ℕ
sleeps [] = 0
sleeps (sleep t ∷ actions) = suc (sleeps actions)
sleeps (close t ∷ actions) = sleeps actions

pub sleeps-append : (a b : List Action) → sleeps (a ++ b) ≡ sleeps a + sleeps b
sleeps-append [] b = omega arith
sleeps-append (sleep t ∷ a) b = omega (arith, sleeps-append a b)
sleeps-append (close t ∷ a) b = sleeps-append a b

sleeps-map-close : (ts : List ℕ) → sleeps (map close ts) ≡ 0
sleeps-map-close [] = refl
sleeps-map-close (t ∷ ts) = sleeps-map-close ts

pub closed_sleeps :
    (resident in_flight : List ℕ) (s : Loop) → sleeps (close_known_gone resident in_flight s) ≡ 0
unfolding close_known_gone
closed_sleeps resident in_flight s =
    sleeps-map-close (in_order (minus (meet resident s.gone) in_flight))

-- An attempt is a sleep that was called.
abbrev pub reached : Outcome → ℕ
reached not_reached = 0
reached _ = 1

pub reached-le : (o : Outcome) → reached o ≤ 1
reached-le done = omega arith
reached-le not_reached = omega arith
reached-le not_slept = omega arith
reached-le already_gone = omega arith

pub sleeps-sleep_one :
    (cog : Bool) (fetch : Fetch) (answer : Answer) (t : ℕ) (s : Loop)
    → let r = sleep_one cog fetch answer t s in sleeps r.2 ≡ reached r.1
unfolding sleep_one resolve_thread
sleeps-sleep_one false fetch answer t s = refl
sleeps-sleep_one true cached slept t s = refl
sleeps-sleep_one true cached refused t s = refl
sleeps-sleep_one true cached nothing t s = refl
sleeps-sleep_one true cached raised t s = refl
sleeps-sleep_one true fetched slept t s = ground arith
sleeps-sleep_one true fetched refused t s = ground arith
sleeps-sleep_one true fetched nothing t s = ground arith
sleeps-sleep_one true fetched raised t s = ground arith
sleeps-sleep_one true not_found answer t s = ground arith
sleeps-sleep_one true forbidden answer t s = ground arith
sleeps-sleep_one true failed answer t s = refl

-- The sleeps called are the attempts, within what is over the limit.
record IsWithin (before bound : ℕ) (p : Pass) : Type 0 where
  called : sleeps p.actions ≡ before + p.attempts
  counted : p.slept ≤ p.attempts
  room : p.attempts ≤ p.over
  bounded : p.over ≤ bound

module _ (k n : ℕ) where
  settle-IsWithin :
      (o : Outcome) (left : Option Bool) (t : ℕ) (p : Pass)
      → sleeps p.actions ≡ k + p.attempts + reached o
      → p.slept ≤ p.attempts
      → p.attempts < p.over
      → p.over ≤ n
      → IsWithin k n (settle o left t p)
  unfolding settle after_failure skip_unreached
  settle-IsWithin done left t p c d e f = record {
    called = omega (arith, c);
    counted = omega (arith, d);
    room = omega (arith, e);
    bounded = f;
  }
  settle-IsWithin not_reached left t p c d e f = elim (Bool-cases (contains t p.loop.gone)) [
    | inl found ↦ record {
      called = ground (arith, found, sleeps-append p.actions (close t ∷ []));
      counted = ground arith;
      room = ground arith;
      bounded = ground arith;
    }
    | inr kept ↦ record {
      called = ground arith;
      counted = ground arith;
      room = ground arith;
      bounded = ground arith;
    }
  ]
  settle-IsWithin already_gone left t p c d e f = record {
    called = omega (arith, c);
    counted = omega (arith, d);
    room = omega (arith, e);
    bounded = f;
  }
  settle-IsWithin not_slept (some true) t p c d e f = record {
    called = omega (arith, c);
    counted = omega (arith, d);
    room = omega (arith, e);
    bounded = f;
  }
  settle-IsWithin not_slept (some false) t p c d e f = record {
    called = omega (arith, c);
    counted = omega (arith, d);
    room = omega (arith, e);
    bounded = f;
  }
  settle-IsWithin not_slept none t p c d e f = record {
    called = omega (arith, c);
    counted = omega (arith, d);
    room = omega (arith, e);
    bounded = f;
  }

  visit-IsWithin :
      (w : World) (last_used : Dict ℕ (Option String)) (t : ℕ) (p : Pass)
      → IsWithin k n p
      → p.attempts < p.over
      → IsWithin k n (visit w last_used t p)
  unfolding visit
  visit-IsWithin w last_used t p i h =
      let r = sleep_one w.cog (w.fetch t) (w.answer t) t (begin_attempt last_used t p.loop) in
      settle-IsWithin r.1 (w.left t) t (record p { loop = r.0; actions = p.actions ++ r.2 })
        (omega (
          arith,
          i.called,
          sleeps-append p.actions r.2,
          sleeps-sleep_one w.cog (w.fetch t) (w.answer t) t (begin_attempt last_used t p.loop),
        ))
        i.counted h i.bounded

  visit_all-IsWithin :
      (w : World) (last_used : Dict ℕ (Option String)) (victims : List ℕ) (p : Pass)
      → IsWithin k n p
      → IsWithin k n (visit_all w last_used victims p)
  unfolding visit_all
  visit_all-IsWithin w last_used [] p i = i
  visit_all-IsWithin w last_used (t ∷ victims) p i = elim (Bool-cases (leb p.over p.attempts)) [
    | inl full ↦ rw full i
    | inr more ↦ rw more (
        visit_all-IsWithin w last_used victims (visit w last_used t p)
          (visit-IsWithin w last_used t p i (ground arith)))
  ]

-- The resident workspaces that this instance owns.
abbrev pub owned_of : World → List ℕ → List ℕ
owned_of w resident = meet resident (map (λ (r : SessionRecord). r.thread_id) w.records)

-- The windows closed before the count.
abbrev pub closed_in : World → List ℕ → Loop → List Action
closed_in w first s = close_known_gone first (in_flight_of w (meet first s.gone)) s

module _ (strptime : String → String → Option ℕ) where
  enforce_counted-IsWithin :
      (w : World) (resident : List ℕ) (actions : List Action) (s : Loop)
      → IsWithin
          (sleeps actions)
          (length (owned_of w resident) - s.limit)
          (enforce_counted strptime w resident actions s)
  unfolding enforce_counted release_used
  enforce_counted-IsWithin w resident actions s =
      elim (Bool-cases (leb (length (owned_of w resident)) s.limit)) [
        | inl few ↦ rw few (record {
          called = omega arith;
          counted = omega arith;
          room = omega arith;
          bounded = omega arith;
        })
        | inr many ↦ rw many (
            visit_all-IsWithin (sleeps actions) (length (owned_of w resident) - s.limit) w
              (last_used_in w.records [])
              (victims_of strptime w (owned_of w resident)
                (release_used (last_used_in w.records []) s))
              (record {
                loop = release_used (last_used_in w.records []) s;
                over = length (owned_of w resident) - s.limit;
                attempts = 0;
                slept = 0;
                freed = 0;
                actions = actions;
              })
              (record {
                called = omega arith;
                counted = omega arith;
                room = omega arith;
                bounded = omega arith;
              }))
      ]

  -- A pass without an answer from tmux does nothing but close.
  pub enforce_cap_silent :
      (w : World) (s : Loop) → w.first_residents ≡ none → enforce_cap strptime w s ≡ idle_pass s []
  unfolding enforce_cap
  enforce_cap_silent w s e = ground (arith, e)

  pub enforce_cap_few :
      (w : World) (s : Loop) (first answer : List ℕ)
      → w.first_residents ≡ some first
      → w.residents ≡ some answer
      → leb (length (minus answer s.gone)) s.limit ≡ true
      → enforce_cap strptime w s
        ≡ idle_pass (keep_books (minus answer s.gone) s) (closed_in w first s)
  unfolding enforce_cap
  enforce_cap_few w s first answer d e few = ground (arith, d, e, few)

  pub enforce_cap_many :
      (w : World) (s : Loop) (first answer : List ℕ)
      → w.first_residents ≡ some first
      → w.residents ≡ some answer
      → leb (length (minus answer s.gone)) s.limit ≡ false
      → enforce_cap strptime w s
        ≡ enforce_counted strptime w
            (minus answer s.gone)
            (closed_in w first s)
            (keep_books (minus answer s.gone) s)
  unfolding enforce_cap
  enforce_cap_many w s first answer d e many = ground (arith, d, e, many)

  -- When tmux answers who is resident: one pass calls the shared sleep at most once for each
  -- workspace over the limit, whatever fails. What is counted are the resident workspaces of this
  -- instance that were not known to be deleted. It counts as slept no more than it called it for.
  pub enforce_cap-bounded :
      (w : World) (s : Loop) (answer : List ℕ)
      → w.residents ≡ some answer
      → let p = enforce_cap strptime w s in
        (sleeps p.actions ≤ length (owned_of w (minus answer s.gone)) - s.limit)
        × (p.slept ≤ sleeps p.actions)
  unfolding keep_books
  enforce_cap-bounded w s answer e = elim (Option-cases w.first_residents) [
    | inl silent ↦ rw (enforce_cap_silent w s silent) (omega arith, omega arith)
    | inr (first, told) ↦
        let resident = minus answer s.gone in
        let none_slept = closed_sleeps first (in_flight_of w (meet first s.gone)) s in
        let i = enforce_counted-IsWithin w resident (closed_in w first s) (keep_books resident s) in
        elim (Bool-cases (leb (length resident) s.limit)) [
          | inl few ↦
              rw (enforce_cap_few w s first answer told e few)
                (omega (arith, none_slept), omega (arith, none_slept))
          | inr many ↦ rw (enforce_cap_many w s first answer told e many) (
            omega (arith, none_slept, i.called, i.room, i.bounded),
            omega (arith, none_slept, i.called, i.counted),
          )
        ]
  ]
