-- ===== src/ResidentCap/Select.antt =====
-- c_lord/resident_cap.py, `select_lru_victims`: whom to sleep, longest idle first.
pub mod Choice
use c_lord.Prelude.{
  ℕ, ◌-◌, String, Bool, true, false, not, ◌&&◌, ◌||◌, Option, none, some, List, [], ◌∷◌, map,
  contains, length, take, ltb, if◌then◌else◌, nat_key,
}
use c_lord.Prelude.Dict.{Dict, get}
use c_lord.Prelude.Ranked.{sort}
use c_lord.Sessions.{SessionRecord, parse_timestamp}

-- The later of the last request and the last write.
abbrev pub idle_since : ℕ → Option ℕ → ℕ
idle_since last none = last
idle_since last (some written) = if ltb last written then written else last

module _ (strptime : String → String → Option ℕ) where
  -- The `for` loop: each candidate with the moment it is idle since.
  unfoldable pub aged : List SessionRecord → List ℕ → List ℕ → Dict ℕ ℕ → List (ℕ × ℕ)
  unfolding parse_timestamp
  aged [] resident in_flight activity = []
  aged (rec ∷ records) resident in_flight activity =
      let rest = aged records resident in_flight activity in
      if not (contains rec.thread_id resident) || contains rec.thread_id in_flight
      then rest
      else elim (parse_timestamp strptime rec.last_used_at) [
        | none ↦ rest
        | some last ↦ (idle_since last (get rec.thread_id activity), rec.thread_id) ∷ rest
      ]

  unfoldable pub select_lru_victims : List SessionRecord → List ℕ → ℕ → List ℕ → Dict ℕ ℕ → List ℕ
  unfolding aged sort
  select_lru_victims records resident target in_flight activity =
      let over = length resident - target in
      map (λ p. p.1) (take over (sort (aged records resident in_flight activity)))
