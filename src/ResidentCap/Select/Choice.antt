-- ===== src/ResidentCap/Select/Choice.antt =====
-- Whom `select_lru_victims` chooses (c_lord/resident_cap.py).
use Prim.Native.Nat.{min}
use c_lord.Prelude.{
  ℕ, ◌-◌, ◌≤◌, String, true, false, not, ◌||◌, Option, some, List, [], ◌∷◌, contains, length,
  length-take, length-map, take, nat_key, ◌≡◌, inl, inr, refl, ap, sym, ◌∙◌, arith, Bool-cases,
  Option-cases,
}
use c_lord.Prelude.Dict.{Dict, get}
use c_lord.Prelude.Ranked.{
  In, sort, In-sort, In-sort_all, In-take, In-map, In-map_image, take-IsRanked, sort-IsRanked,
  length-sort,
}
use c_lord.Sessions.{SessionRecord, parse_timestamp}
use c_lord.ResidentCap.Select.{idle_since, aged, select_lru_victims}

-- What makes a thread eligible, at the moment it is idle since.
pub record IsEligible (strptime : String → String → Option ℕ) (records : List SessionRecord)
    (resident in_flight : List ℕ) (activity : Dict ℕ ℕ) (since thread : ℕ) : Type 0 where
  pub is_resident : contains thread resident ≡ true
  pub not_running : contains thread in_flight ≡ false
  pub row : SessionRecord
  pub in_table : In row records
  pub same_thread : row.thread_id ≡ thread
  pub last : ℕ
  pub readable : parse_timestamp strptime row.last_used_at ≡ some last
  pub idle : since ≡ idle_since last (get thread activity)

module _ (strptime : String → String → Option ℕ) (resident in_flight : List ℕ)
    (activity : Dict ℕ ℕ) where
  wider :
      (r : SessionRecord) (records : List SessionRecord) (p : ℕ × ℕ)
      → IsEligible strptime records resident in_flight activity p.0 p.1
      → IsEligible strptime (r ∷ records) resident in_flight activity p.0 p.1
  wider r records p e = record {
    is_resident = e.is_resident;
    not_running = e.not_running;
    row = e.row;
    in_table = inr e.in_table;
    same_thread = e.same_thread;
    last = e.last;
    readable = e.readable;
    idle = e.idle;
  }

  chosen :
      (r : SessionRecord) (records : List SessionRecord) (p : ℕ × ℕ) (last : ℕ)
      → (not (contains r.thread_id resident) || contains r.thread_id in_flight) ≡ false
      → parse_timestamp strptime r.last_used_at ≡ some last
      → p ≡ (idle_since last (get r.thread_id activity), r.thread_id)
      → IsEligible strptime (r ∷ records) resident in_flight activity p.0 p.1
  chosen r records p last fit read e =
      let t : p.1 ≡ r.thread_id = ap (λ q. q.1) e in
      let s : p.0 ≡ idle_since last (get r.thread_id activity) = ap (λ q. q.0) e in
      record {
        is_resident = rw t (ground arith);
        not_running = rw t (ground arith);
        row = r;
        in_table = inl refl;
        same_thread = sym t;
        last = last;
        readable = read;
        idle = rw t s;
      }

  In-aged :
      (records : List SessionRecord) (p : ℕ × ℕ)
      → In p (aged strptime records resident in_flight activity)
      → IsEligible strptime records resident in_flight activity p.0 p.1
  unfolding aged
  In-aged [] p i = absurd i
  In-aged (r ∷ records) p i =
      elim (Bool-cases (not (contains r.thread_id resident) || contains r.thread_id in_flight)) [
        | inl skipped ↦ wider r records p (In-aged records p (rw skipped at i))
        | inr fit ↦ elim (Option-cases (parse_timestamp strptime r.last_used_at)) [
          | inl unread ↦ wider r records p (In-aged records p (rw (fit, unread) at i))
          | inr (last, read) ↦
              let j : In p (
                  (idle_since last (get r.thread_id activity), r.thread_id)
                  ∷ aged strptime records resident in_flight activity) =
                rw (fit, read) at i in
              elim j [
                | inl e ↦ chosen r records p last fit read e
                | inr k ↦ wider r records p (In-aged records p k)
              ]
        ]
      ]

  -- Every victim is resident, has no running turn, and has a row whose time can be read.
  pub select_lru_victims-IsEligible :
      (records : List SessionRecord) (target t : ℕ)
      → In t (select_lru_victims strptime records resident target in_flight activity)
      → (since : ℕ) × IsEligible strptime records resident in_flight activity since t
  unfolding select_lru_victims
  select_lru_victims-IsEligible records target t i =
      let over = length resident - target in
      let ranked = sort (aged strptime records resident in_flight activity) in
      let (p, j, e) = In-map (λ (p : ℕ × ℕ). p.1) t (take over ranked) i in
      let k : In p (aged strptime records resident in_flight activity) =
        In-sort p (aged strptime records resident in_flight activity) (In-take over p ranked j) in
      (p.0, rw e (In-aged records p k))

  -- The victims are the longest idle: an eligible thread that was left out is idle since no earlier
  -- than any victim.
  pub select_lru_victims-longest_idle :
      (records : List SessionRecord) (target v w since_w : ℕ)
      → In v (select_lru_victims strptime records resident target in_flight activity)
      → In (since_w, w) (aged strptime records resident in_flight activity)
      → ¬ In w (select_lru_victims strptime records resident target in_flight activity)
      → (since_v : ℕ) × In (since_v, v) (aged strptime records resident in_flight activity)
        × (since_v ≤ since_w)
  unfolding select_lru_victims
  select_lru_victims-longest_idle records target v w since_w i j k =
      let over = length resident - target in
      let candidates = aged strptime records resident in_flight activity in
      let (p, l, e) = In-map (λ (p : ℕ × ℕ). p.1) v (take over (sort candidates)) i in
      let first : p.0 ≤ since_w =
        take-IsRanked over p (since_w, w) (sort candidates) (sort-IsRanked candidates) l
          (In-sort_all (since_w, w) candidates j)
          (λ h.
            k (In-map_image (λ (p : ℕ × ℕ). p.1) (since_w, w) (take over (sort candidates)) h)) in
      (p.0, rw e (In-sort p candidates (In-take over p (sort candidates) l)), first)

  -- As many are chosen as are too many, or all the eligible ones if they are fewer.
  pub length-select_lru_victims :
      (records : List SessionRecord) (target : ℕ)
      → length (select_lru_victims strptime records resident target in_flight activity)
        ≡ min
            (length resident - target)
            (length (aged strptime records resident in_flight activity))
  unfolding select_lru_victims
  length-select_lru_victims records target =
      let over = length resident - target in
      let candidates = aged strptime records resident in_flight activity in
      length-map (λ p. p.1) (take over (sort candidates))
      ∙ length-take over (sort candidates)
      ∙ ap (min over) (length-sort candidates)
