-- ===== src/ResidentCap/Cap.antt =====
-- c_lord/resident_cap.py, `_enforce_cap`: at most `limit` workspaces stay resident.
pub mod Bounds
pub mod Safety
use c_lord.Prelude.{
  ℕ, ◌+◌, ◌-◌, String, Bool, true, false, not, Option, none, some, List, [], ◌∷◌, ◌++◌, contains,
  keep, map, length, if◌then◌else◌, nat_key, string_key, ◌==◌, ltb, leb,
}
use c_lord.Prelude.Dict.{Dict, get, has, insert, remove}
use c_lord.Prelude.Ranked.{sort}
use c_lord.Sessions.{SessionRecord}
use c_lord.ResidentCap.Select.{select_lru_victims}
use c_lord.ResidentCap.Sleep.{
  Loop, Fetch, Answer, Outcome, done, not_reached, not_slept, already_gone, Action, close,
  sleep_one, minus, meet, close_known_gone, turns_in_flight,
}

abbrev pub deferral_ticks : ℕ
deferral_ticks = 10

-- What the world answers during one pass.
pub record World : Type 0 where
  pub first_residents : Option (List ℕ)
  pub residents : Option (List ℕ)
  pub active_tasks : List ℕ
  pub panes : List ℕ → Option (List ℕ × List ℕ)
  pub records : List SessionRecord
  pub activity : Dict ℕ ℕ
  pub cog : Bool
  pub fetch : ℕ → Fetch
  pub answer : ℕ → Answer
  pub left : ℕ → Option Bool  -- `_left_residents`, asked after a failed sleep

abbrev pub in_flight_of : World → List ℕ → List ℕ
in_flight_of w candidates =
    turns_in_flight w.active_tasks (w.panes (minus candidates w.active_tasks))
      (minus candidates w.active_tasks)

abbrev pub number_of : ℕ → Dict ℕ ℕ → ℕ
number_of t d = elim (get t d) [ some n ↦ n | none ↦ 0 ]

abbrev pub larger : ℕ → ℕ → ℕ
larger a b = if ltb a b then b else a

-- Those attempted last tick and still counted are deferred.
unfoldable pub defer_attempted : List ℕ → ℕ → Dict ℕ ℕ → Dict ℕ ℕ × Dict ℕ ℕ → Dict ℕ ℕ × Dict ℕ ℕ
defer_attempted resident tick [] (deferred, deferred_at) = (deferred, deferred_at)
defer_attempted resident tick ((t, n) ∷ attempted) (deferred, deferred_at) =
    defer_attempted resident tick attempted (
      if contains t resident
      then (insert t (larger n (number_of t deferred)) deferred, insert t tick deferred_at)
      else (deferred, deferred_at))

-- `max((deferred_at.get(t, 0) for t in deferred), default=0)`
unfoldable pub latest_failure : Dict ℕ ℕ → Dict ℕ ℕ → ℕ
latest_failure deferred_at [] = 0
latest_failure deferred_at ((t, n) ∷ deferred) =
    larger (number_of t deferred_at) (latest_failure deferred_at deferred)

-- The bookkeeping before the count.
unfoldable pub keep_books : List ℕ → Loop → Loop
unfolding defer_attempted latest_failure
keep_books resident s =
    let tick = s.cap_tick + 1 in
    let (noted, noted_at) = defer_attempted resident tick s.attempted (s.deferred, s.deferred_at) in
    let here = keep (λ p. contains p.0 resident) noted in
    let group = if leb deferral_ticks (tick - latest_failure noted_at here) then [] else here in
    let bound = deferral_ticks + length group in
    let deferred = keep (λ p. ltb (tick - number_of p.0 noted_at) bound) group in
    record s {
      cap_tick = tick;
      attempted = [];
      deferred = deferred;
      deferred_at = keep (λ p. has p.0 deferred) noted_at;
    }

-- `{rec.thread_id: rec.last_used_at for rec in records}`
unfoldable pub last_used_in : List SessionRecord → Dict ℕ (Option String) → Dict ℕ (Option String)
last_used_in [] d = d
last_used_in (rec ∷ records) d = last_used_in records (insert rec.thread_id rec.last_used_at d)

-- `d.get(t)`, where a missing key and a stored `None` read alike.
abbrev pub text_of : ℕ → Dict ℕ (Option String) → Option String
text_of t d = elim (get t d) [ some text ↦ text | none ↦ none ]

abbrev pub same_text : Option String → Option String → Bool
same_text none none = true
same_text (some a) (some b) = a == b
same_text none (some b) = false
same_text (some a) none = false

-- A deferred thread that was used since it was attempted is an ordinary candidate again.
unfoldable pub release_used : Dict ℕ (Option String) → Loop → Loop
release_used last_used s =
    let deferred =
      keep (λ p. same_text (text_of p.0 last_used) (text_of p.0 s.attempt_last_used)) s.deferred in
    record s {
      deferred = deferred;
      attempt_last_used = keep (λ p. has p.0 deferred) s.attempt_last_used;
    }

-- The deferred ones go last, oldest failure first.
unfoldable pub deferred_last : Dict ℕ ℕ → List ℕ → List ℕ
deferred_last deferred victims =
    keep (λ t. not (has t deferred)) victims
    ++ map (λ p. p.1)
        (sort (map (λ t. (number_of t deferred, t)) (keep (λ t. has t deferred) victims)))

-- One pass over the victims.
pub record Pass : Type 0 where
  pub loop : Loop
  pub over : ℕ
  pub attempts : ℕ
  pub slept : ℕ
  pub freed : ℕ
  pub actions : List Action

-- A failed sleep, by what the re-read says: gone after all, or tried last from now on.
unfoldable pub after_failure : Option Bool → ℕ → Pass → Pass
after_failure (some true) t p = record p { freed = p.freed + 1 }
after_failure _ t p = record p {
  loop = record p.loop {
    failures = p.loop.failures + 1;
    deferred = insert t (p.loop.failures + 1) p.loop.deferred;
    deferred_at = insert t p.loop.cap_tick p.loop.deferred_at;
  };
}

-- The attempt is written down before the sleep.
unfoldable pub begin_attempt : Dict ℕ (Option String) → ℕ → Loop → Loop
begin_attempt last_used t s = record s {
  deferred = remove t s.deferred;
  failures = s.failures + 1;
  attempted = insert t (s.failures + 1) s.attempted;
  attempt_last_used = insert t (text_of t last_used) s.attempt_last_used;
}

abbrev pub not_attempted : ℕ → Pass → Pass
not_attempted t p = record p { loop = record p.loop { attempted = remove t p.loop.attempted } }

-- No kill was sent; a thread found deleted is closed, and lowers the bar.
unfoldable pub skip_unreached : ℕ → Pass → Pass
skip_unreached t p =
    let p' = not_attempted t p in
    if contains t p'.loop.gone
    then record p' { over = p'.over - 1; actions = p'.actions ++ (close t ∷ []) }
    else p'

unfoldable pub settle : Outcome → Option Bool → ℕ → Pass → Pass
unfolding after_failure skip_unreached
settle done left t p = record (not_attempted t p) {
  attempts = p.attempts + 1;
  slept = p.slept + 1;
  freed = p.freed + 1;
}
settle not_reached left t p = skip_unreached t p
settle already_gone left t p = record p { attempts = p.attempts + 1; freed = p.freed + 1 }
settle not_slept left t p = after_failure left t (record p { attempts = p.attempts + 1 })

unfoldable pub visit : World → Dict ℕ (Option String) → ℕ → Pass → Pass
unfolding begin_attempt settle
visit w last_used t p =
    let (loop, outcome, actions) =
      sleep_one w.cog (w.fetch t) (w.answer t) t (begin_attempt last_used t p.loop) in
    settle outcome (w.left t) t (record p { loop = loop; actions = p.actions ++ actions })

-- The loop over the victims, up to `break`.
unfoldable pub visit_all : World → Dict ℕ (Option String) → List ℕ → Pass → Pass
unfolding visit
visit_all w last_used [] p = p
visit_all w last_used (t ∷ victims) p =
    let rest = visit_all w last_used victims (visit w last_used t p) in
    if leb p.over p.attempts then p else rest

abbrev pub idle_pass : Loop → List Action → Pass
idle_pass s actions = record {
  loop = s;
  over = 0;
  attempts = 0;
  slept = 0;
  freed = 0;
  actions = actions;
}

module _ (strptime : String → String → Option ℕ) where
  unfoldable pub victims_of : World → List ℕ → Loop → List ℕ
  victims_of w resident s = deferred_last s.deferred (
      keep (λ t. not (contains t s.unresolvable))
        (select_lru_victims strptime w.records resident 0 (in_flight_of w resident) w.activity))

  unfoldable pub enforce_counted : World → List ℕ → List Action → Loop → Pass
  enforce_counted w resident actions s =
      let last_used = last_used_in w.records [] in
      let s' = release_used last_used s in
      let owned = meet resident (map (λ (r : SessionRecord). r.thread_id) w.records) in
      let start : Pass = record {
        loop = s';
        over = length owned - s.limit;
        attempts = 0;
        slept = 0;
        freed = 0;
        actions = actions;
      } in
      if leb (length owned) s.limit
      then start
      else visit_all w last_used (victims_of w owned s') start

  unfoldable pub enforce_cap : World → Loop → Pass
  unfolding keep_books enforce_counted
  enforce_cap w s = elim w.first_residents [
    | none ↦ idle_pass s []
    | some first ↦
        let closed = close_known_gone first (in_flight_of w (meet first s.gone)) s in
        elim w.residents [
          | none ↦ idle_pass s closed
          | some answer ↦
              let resident = minus answer s.gone in
              let s' = keep_books resident s in
              if leb (length resident) s.limit
              then idle_pass s' closed
              else enforce_counted w resident closed s'
        ]
  ]
