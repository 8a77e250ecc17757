-- ===== src/ResidentCap/Brake/Episode.antt =====
-- What one engagement of the brake does (c_lord/resident_cap.py, `_emergency_brake`, `tick`).
use c_lord.Prelude.{
  ℕ, zero, suc, ◌+◌, ◌≤◌, String, Bool, true, Option, List, [], ◌∷◌, ◌++◌, nat_key, ◌≡◌, refl, inl,
  inr, arith, Bool-cases,
}
use c_lord.ResidentCap.Sleep.{
  Loop, Outcome, done, not_reached, not_slept, already_gone, close, sleep_one, minus, meet,
  close_known_gone,
}
use c_lord.ResidentCap.Cap.{World, Pass, in_flight_of, idle_pass}
use c_lord.ResidentCap.Cap.Bounds.{
  sleeps, reached-le, sleeps-append, sleeps-sleep_one, closed_sleeps, owned_of,
}
use c_lord.ResidentCap.Brake.{
  Reading, resident_of, has_recovered, note_slept, brake_visit, release, brake_all, engage,
  brake_victims, emergency_brake,
}

note_slept-sleeps :
    (o : Outcome) (t : ℕ) (p : Pass) → sleeps (note_slept o t p).actions ≡ sleeps p.actions
unfolding note_slept
note_slept-sleeps done t p = refl
note_slept-sleeps not_reached t p = ground (arith, sleeps-append p.actions (close t ∷ []))
note_slept-sleeps not_slept t p = ground (arith, sleeps-append p.actions (close t ∷ []))
note_slept-sleeps already_gone t p = ground (arith, sleeps-append p.actions (close t ∷ []))

brake_visit-sleeps :
    (w : World) (t : ℕ) (p : Pass) → sleeps (brake_visit w t p).actions ≤ suc (sleeps p.actions)
unfolding brake_visit
brake_visit-sleeps w t p =
    let r = sleep_one w.cog (w.fetch t) (w.answer t) t p.loop in
    ground (
      arith,
      note_slept-sleeps r.1 t (record p { loop = r.0; actions = p.actions ++ r.2 }),
      sleeps-append p.actions r.2,
      sleeps-sleep_one w.cog (w.fetch t) (w.answer t) t p.loop,
      reached-le r.1,
    )

module _ (enough : ℕ → ℕ → Bool) where
  brake_all-sleeps :
      (w : World) (memory : ℕ → Reading) (victims : List ℕ) (p : Pass) (n : ℕ)
      → has_recovered enough (memory n) ≡ true
      → sleeps (brake_all enough w memory victims p).actions ≤ sleeps p.actions + suc n
  unfolding brake_all release
  brake_all-sleeps w memory [] p n e = omega arith
  brake_all-sleeps w memory (t ∷ victims) p zero e = rw e (omega (arith, brake_visit-sleeps w t p))
  brake_all-sleeps w memory (t ∷ victims) p (suc n) e =
      elim (Bool-cases (has_recovered enough (memory 0))) [
        | inl early ↦ rw early (omega (arith, brake_visit-sleeps w t p))
        | inr late ↦ rw late (
            omega (
              arith,
              brake_visit-sleeps w t p,
              brake_all-sleeps w (λ k. memory (suc k)) victims (brake_visit w t p) n e,
            ))
      ]

  module _ (strptime : String → String → Option ℕ) where
    -- The brake does the least that clears the spike: when the reading after its `n + 1`-th thread
    -- shows enough memory, no more than `n + 1` sleeps have been called, whoever was eligible.
    pub emergency_brake-sleeps :
        (w : World) (memory : ℕ → Reading) (s : Loop) (n : ℕ)
        → has_recovered enough (memory n) ≡ true
        → sleeps (emergency_brake enough strptime w memory s).actions ≤ suc n
    unfolding emergency_brake
    emergency_brake-sleeps w memory s n e =
        let first = resident_of w.first_residents in
        let running = in_flight_of w (meet first (engage s).gone) in
        omega (
          arith,
          closed_sleeps first running (engage s),
          brake_all-sleeps w memory
              (brake_victims strptime w
                (owned_of w (minus (resident_of w.residents) (engage s).gone)))
              (idle_pass (engage s) (close_known_gone first running (engage s))) n e,
        )
