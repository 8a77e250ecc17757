-- ===== src/ResidentCap/Brake/Safety.antt =====
-- Whom one tick puts to sleep, brake or cap (c_lord/resident_cap.py, `tick`).
use c_lord.Prelude.{
  ℕ, suc, String, Bool, Option, some, List, [], ◌∷◌, ◌++◌, contains, nat_key, leb, ◌≡◌, refl, ap,
  subst, inl, inr, arith, All, Bool-cases,
}
use c_lord.ResidentCap.Select.Choice.{IsEligible, select_lru_victims-IsEligible}
use c_lord.ResidentCap.Sleep.{
  Loop, Outcome, done, not_reached, not_slept, already_gone, Action, sleep, close, sleep_one, minus,
  meet, close_known_gone, in_order,
}
use c_lord.ResidentCap.Cap.{World, Pass, in_flight_of, idle_pass, enforce_cap}
use c_lord.ResidentCap.Cap.Bounds.{owned_of}
use c_lord.ResidentCap.Cap.Safety.{
  All-append, All-of_In, All-map-close, sleep_one-All, IsSleepable, enforce_cap-IsSleepable,
}
use c_lord.ResidentCap.Brake.{
  Reading, resident_of, observe_pressure, has_recovered, note_slept, brake_visit, release,
  brake_all, engage, brake_victims, emergency_brake, tick,
}

module _ (P : Action → Type 0) (closing : (t : ℕ) → P (close t)) where
  note_slept-All :
      (o : Outcome) (t : ℕ) (p : Pass) → All P p.actions → All P (note_slept o t p).actions
  unfolding note_slept
  note_slept-All o t p h = elim (Bool-cases (contains t p.loop.gone)) [
    | inl found ↦ elim o as (λ k. All P (note_slept k t p).actions) [
      | done ↦ h
      | not_reached ↦ rw found (All-append P p.actions (close t ∷ []) h (closing t, tt))
      | not_slept ↦ rw found (All-append P p.actions (close t ∷ []) h (closing t, tt))
      | already_gone ↦ rw found (All-append P p.actions (close t ∷ []) h (closing t, tt))
    ]
    | inr kept ↦ elim o as (λ k. All P (note_slept k t p).actions) [
      | done ↦ h
      | not_reached ↦ rw kept h
      | not_slept ↦ rw kept h
      | already_gone ↦ rw kept h
    ]
  ]

  brake_visit-All :
      (w : World) (t : ℕ) (p : Pass)
      → P (sleep t)
      → All P p.actions
      → All P (brake_visit w t p).actions
  unfolding brake_visit
  brake_visit-All w t p v h =
      let r = sleep_one w.cog (w.fetch t) (w.answer t) t p.loop in
      note_slept-All r.1 t (record p { loop = r.0; actions = p.actions ++ r.2 })
        (All-append P p.actions r.2 h
          (sleep_one-All P closing w.cog (w.fetch t) (w.answer t) t p.loop v))

  brake_all-All :
      (enough : ℕ → ℕ → Bool) (w : World) (memory : ℕ → Reading) (victims : List ℕ) (p : Pass)
      → All (λ t. P (sleep t)) victims
      → All P p.actions
      → All P (brake_all enough w memory victims p).actions
  unfolding brake_all release
  brake_all-All enough w memory [] p v h = h
  brake_all-All enough w memory (t ∷ victims) p v h =
      elim (Bool-cases (has_recovered enough (memory 0))) [
        | inl early ↦ rw early (brake_visit-All w t p v.0 h)
        | inr late ↦ rw late (
            brake_all-All enough w (λ k. memory (suc k)) victims (brake_visit w t p) v.1
              (brake_visit-All w t p v.0 h))
      ]

-- What the brake and the cap both ask of a thread before its workspace is put to sleep.
abbrev pub IsIdle : (String → String → Option ℕ) → World → List ℕ → Action → Type 0
IsIdle strptime w resident (close t) = Unit
IsIdle strptime w resident (sleep t) =
    (since : ℕ) × IsEligible strptime w.records resident (in_flight_of w resident) w.activity since
      t

module _ (enough : ℕ → ℕ → Bool) (strptime : String → String → Option ℕ) where
  emergency_brake-IsIdle :
      (w : World) (memory : ℕ → Reading) (s : Loop)
      → All
          (IsIdle strptime w (owned_of w (minus (resident_of w.residents) s.gone)))
          (emergency_brake enough strptime w memory s).actions
  unfolding emergency_brake close_known_gone brake_victims engage
  emergency_brake-IsIdle w memory s =
      let first = resident_of w.first_residents in
      let running = in_flight_of w (meet first s.gone) in
      let resident = owned_of w (minus (resident_of w.residents) s.gone) in
      brake_all-All (IsIdle strptime w resident) (λ t. tt) enough w memory
        (brake_victims strptime w resident)
        (idle_pass (engage s) (close_known_gone first running (engage s)))
        (All-of_In (λ t. IsIdle strptime w resident (sleep t)) (brake_victims strptime w resident)
          (λ t i.
            select_lru_victims-IsEligible strptime resident (in_flight_of w resident) w.activity
              w.records 0 t i))
        (All-map-close (IsIdle strptime w resident) (λ t. tt)
          (in_order (minus (meet first s.gone) running)))

  IsIdle-of_IsSleepable :
      (w : World) (resident : List ℕ) (s : Loop) (actions : List Action)
      → All (IsSleepable strptime w resident s) actions
      → All (IsIdle strptime w (owned_of w resident)) actions
  IsIdle-of_IsSleepable w resident s [] h = tt
  IsIdle-of_IsSleepable w resident s (sleep t ∷ actions) h =
      (h.0.1, IsIdle-of_IsSleepable w resident s actions h.1)
  IsIdle-of_IsSleepable w resident s (close t ∷ actions) h =
      (tt, IsIdle-of_IsSleepable w resident s actions h.1)

  gone-observe_pressure :
      (reading : Reading) (s : Loop) → (observe_pressure enough reading s).0.gone ≡ s.gone
  unfolding observe_pressure
  gone-observe_pressure reading s = ground arith

  moved :
      (w : World) (a b : List ℕ) (actions : List Action)
      → a ≡ b
      → All (IsIdle strptime w (owned_of w a)) actions
      → All (IsIdle strptime w (owned_of w b)) actions
  moved w a b actions e h = subst (λ l. All (IsIdle strptime w (owned_of w l)) actions) e h

  same_residents :
      (o : Option (List ℕ)) (answer a b : List ℕ)
      → o ≡ some answer
      → a ≡ b
      → minus (resident_of o) a ≡ minus answer b
  same_residents o answer a b e f = rw (e, f) refl

  -- When tmux answers who is resident: no tick, under pressure or not, calls the shared sleep for a
  -- thread with a running turn, for one that is not resident or not owned by this instance, for one
  -- known to be deleted when the tick began, or for one whose time of last use cannot be read.
  pub tick-IsIdle :
      (w : World) (reading : Reading) (memory : ℕ → Reading) (s : Loop) (answer : List ℕ)
      → w.residents ≡ some answer
      → All
          (IsIdle strptime w (owned_of w (minus answer s.gone)))
          (tick enough strptime w reading memory s).actions
  unfolding tick
  tick-IsIdle w reading memory s answer e =
      let s' = (observe_pressure enough reading s).0 in
      let kept = gone-observe_pressure reading s in
      let braked =
        moved w (minus (resident_of w.residents) s'.gone) (minus answer s.gone)
          (emergency_brake enough strptime w memory s').actions
          (same_residents w.residents answer s'.gone s.gone e kept)
          (emergency_brake-IsIdle w memory s') in
      let capped =
        moved w (minus answer s'.gone) (minus answer s.gone) (enforce_cap strptime w s').actions
          (ap (minus answer) kept)
          (IsIdle-of_IsSleepable w (minus answer s'.gone) s' (enforce_cap strptime w s').actions
            (enforce_cap-IsSleepable strptime w s' answer e)) in
      elim (Bool-cases (observe_pressure enough reading s).1) [
        | inl low ↦ rw low braked
        | inr fine ↦ elim (Bool-cases (leb s'.limit 0)) [
          | inl off ↦ rw (fine, off) tt
          | inr on ↦ rw (fine, on) capped
        ]
      ]
