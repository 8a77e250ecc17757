-- ===== src/ResidentCap/Cap/Safety.antt =====
-- Whom one pass of the cap puts to sleep (c_lord/resident_cap.py, `_enforce_cap`).
use c_lord.Prelude.{
  ℕ, ◌-◌, String, Bool, true, false, not, Option, none, some, List, [], ◌∷◌, ◌++◌, contains, keep,
  map, length, nat_key, leb, ◌≡◌, ◌⊎◌, refl, inl, inr, arith, All, Bool-cases, Option-cases,
}
use c_lord.Prelude.Dict.{Dict, has}
use c_lord.Prelude.Ranked.{In-keep, sort, In, In-sort, In-map}
use c_lord.ResidentCap.Select.{select_lru_victims}
use c_lord.ResidentCap.Select.Choice.{IsEligible, select_lru_victims-IsEligible}
use c_lord.ResidentCap.Sleep.{
  Loop, Fetch, Answer, Outcome, done, not_reached, not_slept, already_gone, Action, sleep, close,
  resolve_thread, sleep_one, in_order, minus, meet, close_known_gone,
}
use c_lord.ResidentCap.Cap.{
  World, Pass, number_of, in_flight_of, keep_books, release_used, last_used_in, after_failure,
  begin_attempt, skip_unreached, settle, visit, visit_all, deferred_last, victims_of,
  enforce_counted, enforce_cap,
}
use c_lord.ResidentCap.Cap.Bounds.{
  owned_of, closed_in, enforce_cap_silent, enforce_cap_few, enforce_cap_many,
}

module _ {A : Type 0} where
  In-append : (x : A) (a b : List A) → In x (a ++ b) → In x a ⊎ In x b
  In-append x [] b i = inr i
  In-append x (y ∷ a) b (inl e) = inl (inl e)
  In-append x (y ∷ a) b (inr i) = elim (In-append x a b i) [ inl j ↦ inl (inr j) | inr j ↦ inr j ]

  pub All-append : (P : A → Type 0) (a b : List A) → All P a → All P b → All P (a ++ b)
  All-append P [] b h k = k
  All-append P (x ∷ a) b h k = (h.0, All-append P a b h.1 k)

  pub All-of_In : (P : A → Type 0) (l : List A) → ((x : A) → In x l → P x) → All P l
  All-of_In P [] h = tt
  All-of_In P (x ∷ l) h = (h x (inl refl), All-of_In P l (λ y i. h y (inr i)))

module _ (P : Action → Type 0) (closing : (t : ℕ) → P (close t)) where
  pub All-map-close : (ts : List ℕ) → All P (map close ts)
  All-map-close [] = tt
  All-map-close (t ∷ ts) = (closing t, All-map-close ts)

  pub sleep_one-All :
      (cog : Bool) (fetch : Fetch) (answer : Answer) (t : ℕ) (s : Loop)
      → P (sleep t)
      → All P (sleep_one cog fetch answer t s).2
  unfolding sleep_one
  sleep_one-All false fetch answer t s h = tt
  sleep_one-All true fetch answer t s h = elim (Bool-cases (resolve_thread fetch t s).1) [
    | inl holds ↦ rw holds (h, tt)
    | inr fails ↦ rw fails tt
  ]

  settle-All :
      (o : Outcome) (left : Option Bool) (t : ℕ) (p : Pass)
      → All P p.actions
      → All P (settle o left t p).actions
  unfolding settle after_failure skip_unreached
  settle-All done left t p h = h
  settle-All not_reached left t p h = elim (Bool-cases (contains t p.loop.gone)) [
    | inl found ↦ rw found (All-append P p.actions (close t ∷ []) h (closing t, tt))
    | inr kept ↦ rw kept h
  ]
  settle-All already_gone left t p h = h
  settle-All not_slept (some true) t p h = h
  settle-All not_slept (some false) t p h = h
  settle-All not_slept none t p h = h

  visit_all-All :
      (w : World) (last_used : Dict ℕ (Option String)) (victims : List ℕ) (p : Pass)
      → All (λ t. P (sleep t)) victims
      → All P p.actions
      → All P (visit_all w last_used victims p).actions
  unfolding visit_all visit
  visit_all-All w last_used [] p v h = h
  visit_all-All w last_used (t ∷ victims) p v h = elim (Bool-cases (leb p.over p.attempts)) [
    | inl full ↦ rw full h
    | inr more ↦
        let r = sleep_one w.cog (w.fetch t) (w.answer t) t (begin_attempt last_used t p.loop) in
        rw more (
          visit_all-All w last_used victims (visit w last_used t p) v.1 (
            settle-All r.1 (w.left t) t (record p { loop = r.0; actions = p.actions ++ r.2 })
              (All-append P p.actions r.2 h (
                sleep_one-All w.cog (w.fetch t) (w.answer t) t (begin_attempt last_used t p.loop)
                  v.0))))
  ]

-- What the cap asks of a thread before its workspace is put to sleep.
abbrev pub IsSleepable : (String → String → Option ℕ) → World → List ℕ → Loop → Action → Type 0
IsSleepable strptime w resident s (close t) = Unit
IsSleepable strptime w resident s (sleep t) =
    (contains t s.unresolvable ≡ false)
    × ((since : ℕ) × IsEligible strptime w.records (owned_of w resident)
          (in_flight_of w (owned_of w resident)) w.activity since t)

module _ (strptime : String → String → Option ℕ) where
  In-deferred_last :
      (d : Dict ℕ ℕ) (t : ℕ) (victims : List ℕ) → In t (deferred_last d victims) → In t victims
  unfolding deferred_last
  In-deferred_last d t victims i =
      let late : List (ℕ × ℕ) = map (λ (u : ℕ). (number_of u d, u)) (keep (λ u. has u d) victims) in
      elim (In-append t (keep (λ u. not (has u d)) victims) (map (λ (p : ℕ × ℕ). p.1) (sort late))
        i) [
          | inl j ↦ (In-keep (λ u. not (has u d)) t victims j).0
          | inr j ↦
              let (p, k, e) = In-map (λ (p : ℕ × ℕ). p.1) t (sort late) j in
              let (u, l, f) =
                In-map (λ (u : ℕ). (number_of u d, u)) p (keep (λ u. has u d) victims)
                  (In-sort p late k) in
              rw (e, f) (In-keep (λ u. has u d) u victims l).0
        ]

  victim-IsSleepable :
      (w : World) (resident : List ℕ) (s : Loop) (t : ℕ)
      → In t (victims_of strptime w (owned_of w resident) s)
      → IsSleepable strptime w resident s (sleep t)
  unfolding victims_of
  victim-IsSleepable w resident s t i =
      let owned = owned_of w resident in
      let chosen =
        select_lru_victims strptime w.records owned 0 (in_flight_of w owned) w.activity in
      let (j, known) =
        In-keep (λ u. not (contains u s.unresolvable)) t chosen
          (In-deferred_last s.deferred t (keep (λ u. not (contains u s.unresolvable)) chosen) i) in
      (
        ground arith,
        select_lru_victims-IsEligible strptime owned (in_flight_of w owned) w.activity w.records 0 t
            j,
      )

  enforce_counted-IsSleepable :
      (w : World) (resident : List ℕ) (actions : List Action) (s : Loop)
      → All (IsSleepable strptime w resident s) actions
      → All
          (IsSleepable strptime w resident s)
          (enforce_counted strptime w resident actions s).actions
  unfolding enforce_counted release_used
  enforce_counted-IsSleepable w resident actions s h =
      elim (Bool-cases (leb (length (owned_of w resident)) s.limit)) [
        | inl few ↦ rw few h
        | inr many ↦
            let s' = release_used (last_used_in w.records []) s in
            rw many (
              visit_all-All (IsSleepable strptime w resident s) (λ t. tt) w
                (last_used_in w.records []) (victims_of strptime w (owned_of w resident) s')
                (record {
                  loop = s';
                  over = length (owned_of w resident) - s.limit;
                  attempts = 0;
                  slept = 0;
                  freed = 0;
                  actions = actions;
                })
                (All-of_In (λ t. IsSleepable strptime w resident s (sleep t))
                  (victims_of strptime w (owned_of w resident) s')
                  (λ t i. victim-IsSleepable w resident s' t i))
                h)
      ]

  closed-IsSleepable :
      (w : World) (resident : List ℕ) (s : Loop) (first : List ℕ)
      → All (IsSleepable strptime w resident s) (closed_in w first s)
  unfolding close_known_gone
  closed-IsSleepable w resident s first =
      All-map-close (IsSleepable strptime w resident s) (λ t. tt)
        (in_order (minus (meet first s.gone) (in_flight_of w (meet first s.gone))))

  -- When tmux answers who is resident: a pass calls the shared sleep only for a thread that is
  -- resident and owned by this instance, has no running turn on the host, was not known to be deleted
  -- or out of reach when the pass began, and has a row whose time of last use can be read.
  pub enforce_cap-IsSleepable :
      (w : World) (s : Loop) (answer : List ℕ)
      → w.residents ≡ some answer
      → All (IsSleepable strptime w (minus answer s.gone) s) (enforce_cap strptime w s).actions
  unfolding keep_books
  enforce_cap-IsSleepable w s answer e = elim (Option-cases w.first_residents) [
    | inl silent ↦ rw (enforce_cap_silent strptime w s silent) tt
    | inr (first, told) ↦
        let resident = minus answer s.gone in
        let closing = closed-IsSleepable w resident s first in
        elim (Bool-cases (leb (length resident) s.limit)) [
          | inl few ↦ rw (enforce_cap_few strptime w s first answer told e few) closing
          | inr many ↦ rw (enforce_cap_many strptime w s first answer told e many) (
              enforce_counted-IsSleepable w resident (closed_in w first s) (keep_books resident s)
                closing)
        ]
  ]
