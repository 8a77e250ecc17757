-- ===== src/ResidentCap/Brake/Pressure.antt =====
-- When the emergency brake fires (c_lord/resident_cap.py, `_observe_pressure`).
use c_lord.Prelude.{ℕ, ◌+◌, ◌≤◌, ◌<◌, Bool, true, false, ◌≡◌, ◌↔◌, arith}
use c_lord.ResidentCap.Sleep.{Loop}
use c_lord.ResidentCap.Brake.{Reading, observe_pressure}

module _ (enough : ℕ → ℕ → Bool) where
  -- A reading below the line: it could be taken, and too little is available.
  abbrev pub IsLow : Reading → Type 0
  IsLow r = (0 < r.0) × (enough r.0 r.1 ≡ false)

  observe_low :
      (r : Reading) (s : Loop)
      → IsLow r
      → (observe_pressure enough r s).0.low_streak ≡ s.low_streak + 1
  unfolding observe_pressure
  observe_low r s low = ground arith

  observe_other :
      (r : Reading) (s : Loop)
      → ¬ IsLow r
      → ((observe_pressure enough r s).0.low_streak ≡ 0) × ((observe_pressure enough r s).1 ≡ false)
  unfolding observe_pressure
  observe_other r s other = ground arith

  observe_fires :
      (r : Reading) (s : Loop)
      → ((observe_pressure enough r s).1 ≡ true) ↔ (IsLow r × (2 ≤ s.low_streak))
  unfolding observe_pressure
  observe_fires r s = ground arith

  -- Three readings that follow one another, with no run of the brake in between, which may set the count
  -- back: whatever the count was, the third one fires the brake exactly when all three are low, so that
  -- neither one dip, nor two, nor a reading that could not be taken fires it then; and if the count
  -- was zero, the first two do not fire it, so that no run comes in between.
  pub observe_pressure_iff :
      (s : Loop) (a b c : Reading)
      → let s1 = (observe_pressure enough a s).0 in
        let s2 = (observe_pressure enough b s1).0 in
        (((observe_pressure enough c s2).1 ≡ true) ↔ (IsLow a × IsLow b × IsLow c))
        × (s.low_streak ≡ 0
            → ((observe_pressure enough a s).1 ≡ false)
              × ((observe_pressure enough b s1).1 ≡ false))
  observe_pressure_iff s a b c =
      let s1 = (observe_pressure enough a s).0 in
      let s2 = (observe_pressure enough b s1).0 in
      (
        ground (
          arith,
          observe_low a s,
          observe_other a s,
          observe_low b s1,
          observe_other b s1,
          observe_fires c s2,
        ),
        λ zero_streak. (
          ground (arith, zero_streak, observe_fires a s),
          ground (arith, zero_streak, observe_low a s, observe_other a s, observe_fires b s1),
        ),
      )
