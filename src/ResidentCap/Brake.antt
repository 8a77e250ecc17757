-- ===== src/ResidentCap/Brake.antt =====
-- c_lord/resident_cap.py, `tick` with `_observe_pressure` and `_emergency_brake`. `enough` is the
-- float test `available >= total * EMERGENCY_LOW_FRACTION`.
pub mod Pressure
pub mod Safety
pub mod Episode
use c_lord.Prelude.{
  ℕ, zero, suc, ◌+◌, String, Bool, true, false, not, ◌&&◌, Option, none, some, List, [], ◌∷◌, ◌++◌,
  contains, map, if◌then◌else◌, nat_key, leb, ltb,
}
use c_lord.Sessions.{SessionRecord}
use c_lord.ResidentCap.Select.{select_lru_victims}
use c_lord.ResidentCap.Sleep.{
  Loop, Outcome, done, not_reached, not_slept, already_gone, Action, sleep, close, sleep_one, minus,
  meet, close_known_gone,
}
use c_lord.ResidentCap.Cap.{World, Pass, in_flight_of, idle_pass, enforce_cap}

abbrev pub emergency_consecutive_samples : ℕ
emergency_consecutive_samples = 3

-- A reading of memory: total and available, in bytes.
abbrev pub Reading : Type 0
Reading = ℕ × ℕ

-- `_resident`: no answer reads as nobody.
abbrev pub resident_of : Option (List ℕ) → List ℕ
resident_of answer = elim answer [ some residents ↦ residents | none ↦ [] ]

-- The end of one turn of the loop: what was slept is counted, a thread found deleted is closed.
unfoldable pub note_slept : Outcome → ℕ → Pass → Pass
note_slept done t p = record p { slept = p.slept + 1 }
note_slept _ t p =
    if contains t p.loop.gone then record p { actions = p.actions ++ (close t ∷ []) } else p

unfoldable pub brake_visit : World → ℕ → Pass → Pass
unfolding note_slept
brake_visit w t p =
    let (loop, outcome, actions) = sleep_one w.cog (w.fetch t) (w.answer t) t p.loop in
    note_slept outcome t (record p { loop = loop; actions = p.actions ++ actions })

unfoldable pub release : Pass → Pass
release p = record p { loop = record p.loop { braking = false; low_streak = 0 } }

unfoldable pub engage : Loop → Loop
engage s = record s { episode = if s.braking then s.episode else s.episode + 1; braking = true }

module _ (strptime : String → String → Option ℕ) where
  -- Those the brake may sleep.
  unfoldable pub brake_victims : World → List ℕ → List ℕ
  brake_victims w resident =
      select_lru_victims strptime w.records resident 0 (in_flight_of w resident) w.activity

module _ (enough : ℕ → ℕ → Bool) where
  unfoldable pub observe_pressure : Reading → Loop → Loop × Bool
  observe_pressure (total, available) s =
      if leb total 0
      then (record s { low_streak = 0 }, false)
      else (if enough total available
          then (record s { braking = false; low_streak = 0 }, false)
          else (
            record s { low_streak = s.low_streak + 1 },
            leb emergency_consecutive_samples (s.low_streak + 1),
          ))

  -- `total > 0 and available >= total * EMERGENCY_LOW_FRACTION`
  abbrev pub has_recovered : Reading → Bool
  has_recovered (total, available) = ltb 0 total && enough total available

  -- One victim at a time, with a reading of memory after each.
  unfoldable pub brake_all : World → (ℕ → Reading) → List ℕ → Pass → Pass
  unfolding brake_visit release
  brake_all w memory [] p = p
  brake_all w memory (t ∷ victims) p =
      let p' = brake_visit w t p in
      let rest = brake_all w (λ n. memory (suc n)) victims p' in
      if has_recovered (memory 0) then release p' else rest

module _ (enough : ℕ → ℕ → Bool) (strptime : String → String → Option ℕ) where
  unfoldable pub emergency_brake : World → (ℕ → Reading) → Loop → Pass
  unfolding engage
  emergency_brake w memory s =
      let s' = engage s in
      let first = resident_of w.first_residents in
      let closed = close_known_gone first (in_flight_of w (meet first s'.gone)) s' in
      let resident =
        meet (minus (resident_of w.residents) s'.gone)
          (map (λ (r : SessionRecord). r.thread_id) w.records) in
      brake_all enough w memory (brake_victims strptime w resident) (idle_pass s' closed)

  -- One pass: `reading` is taken first, `memory` while the brake works.
  unfoldable pub tick : World → Reading → (ℕ → Reading) → Loop → Pass
  unfolding observe_pressure emergency_brake
  tick w reading memory s =
      let (s', under_pressure) = observe_pressure enough reading s in
      if under_pressure
      then emergency_brake w memory s'
      else (if leb s'.limit 0 then idle_pass s' [] else enforce_cap strptime w s')
