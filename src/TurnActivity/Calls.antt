-- ===== src/TurnActivity/Calls.antt =====
-- Which calls are out, and whose turn it is (c_lord/turn_activity.py).
use c_lord.Prelude.{
  ℕ, String, Bool, true, false, not, ◌&&◌, ◌||◌, some, List, [], ◌∷◌, ◌++◌, contains,
  contains-append, contains-keep, nat_key, string_key, ◌==◌, ◌≡◌, ◌↔◌, refl, subst, sym, ◌∙◌, inl,
  inr, arith, Bool-cases,
}
use c_lord.Prelude.Dict.{get, get-insert_self, get-remove_self}
use c_lord.TurnActivity.{
  TurnActivity, subscribe, is_current, unsubscribe, calls_of, running, open_all, close_all, note,
}

-- What the events of a turn say of one call: started and not finished since.
abbrev pub is_out : String → List (List String × List String) → Bool → Bool
is_out u [] out = out
is_out u ((started, finished) ∷ events) out =
    is_out u events ((contains u started || out) && not (contains u finished))

unfoldable pub note_all : ℕ → List (List String × List String) → TurnActivity → TurnActivity
note_all t [] a = a
note_all t ((started, finished) ∷ events) a = note_all t events (note t started finished a).0

contains_same :
    (u v : String) (calls : List String)
    → contains v calls ≡ true
    → (v == u) ≡ true
    → contains u calls ≡ true
contains_same u v calls h same =
    let e : v ≡ u = (string_key.same_iff v u).0 same in subst (λ w. contains w calls ≡ true) e h

contains-open_all :
    (u : String) (started calls : List String)
    → contains u (open_all started calls) ≡ (contains u started || contains u calls)
contains-open_all u [] calls = refl
contains-open_all u (v ∷ started) calls = elim (Bool-cases (contains v calls)) [
  | inl known ↦
      rw known (ground (arith, contains-open_all u started calls, contains_same u v calls known))
  | inr new ↦ rw new (
      ground
        (arith, contains-open_all u started (calls ++ (v ∷ [])), contains-append u calls (v ∷ [])))
]

note_calls :
    (t listener : ℕ) (u : String) (started finished : List String) (a : TurnActivity)
    → get t a.listeners ≡ some listener
    → let b = (note t started finished a).0 in
      (get t b.listeners ≡ some listener)
      × (contains u (calls_of t b)
          ≡ ((contains u started || contains u (calls_of t a)) && not (contains u finished)))
unfolding note
note_calls t listener u started finished a live =
    let now = close_all finished (open_all started (calls_of t a)) in
    rw (note, live, calls_of, get-insert_self t now a.open_calls)
      (
        live,
        contains-keep u (λ v. not (contains v finished)) (open_all started (calls_of t a))
            ∙ ground (arith, contains-open_all u started (calls_of t a)),
      )

note_all_calls :
    (t listener : ℕ) (u : String) (events : List (List String × List String)) (a : TurnActivity)
    → get t a.listeners ≡ some listener
    → let b = note_all t events a in
      (get t b.listeners ≡ some listener)
      × (contains u (calls_of t b) ≡ is_out u events (contains u (calls_of t a)))
unfolding note_all
note_all_calls t listener u [] a live = (live, refl)
note_all_calls t listener u ((started, finished) ∷ events) a live =
    let (still, here) = note_calls t listener u started finished a live in
    let (last, there) = note_all_calls t listener u events (note t started finished a).0 still in
    (last, rw (← here) there)

has_one :
    (calls : List String)
    → (elim calls [ [] ↦ false | _ ∷ _ ↦ true ] ≡ true) ↔ ((u : String) × (contains u calls ≡ true))
has_one [] = (λ h. absurd (ground arith), λ (u, h). absurd (ground arith))
has_one (u ∷ calls) = (λ h. (u, ground (arith, string_key.same_iff u u)), λ h. refl)

running_iff :
    (t : ℕ) (a : TurnActivity)
    → (running t a ≡ true) ↔ ((u : String) × (contains u (calls_of t a) ≡ true))
unfolding running
running_iff t a = has_one (calls_of t a)

told :
    (t listener : ℕ) (events : List (List String × List String)) (a : TurnActivity) (u : String)
    → let b = note_all t events (subscribe t listener a) in
      (get t b.listeners ≡ some listener) × (contains u (calls_of t b) ≡ is_out u events false)
unfolding subscribe
told t listener events a u =
    let s = subscribe t listener a in
    let (live, calls) =
      note_all_calls t listener u events s (get-insert_self t listener a.listeners) in
    let none_yet : calls_of t s ≡ [] = rw (calls_of, get-remove_self t a.open_calls) refl in
    (live, rw none_yet at calls)

-- A turn that has subscribed, and whatever the transcript shows since: its lamp is told that a call
-- is out exactly if there is one that started and was not finished after it, and it is the one that
-- hears of it. Calls of the turn before count for nothing.
pub running-note_all :
    (t listener : ℕ) (events : List (List String × List String)) (a : TurnActivity)
    → let b = note_all t events (subscribe t listener a) in
      (is_current t listener b ≡ true)
      × ((running t b ≡ true) ↔ ((u : String) × (is_out u events false ≡ true)))
unfolding is_current
running-note_all t listener events a =
    let b = note_all t events (subscribe t listener a) in
    let live = (told t listener events a "").0 in
    (
      rw (is_current, live) (ground arith),
      (
        λ h. let (u, h') = (running_iff t b).0 h in (u, sym (told t listener events a u).1 ∙ h'),
        λ (u, h). (running_iff t b).1 (u, (told t listener events a u).1 ∙ h),
      ),
    )

-- A turn that unwinds after the next one has subscribed takes nothing from it.
pub unsubscribe_stale :
    (t old new : ℕ) (events : List (List String × List String)) (a : TurnActivity)
    → (old == new) ≡ false
    → let b = note_all t events (subscribe t new a) in unsubscribe t old b ≡ b
unfolding is_current unsubscribe
unsubscribe_stale t old new events a other =
    let b = note_all t events (subscribe t new a) in
    let live = (told t new events a "").0 in
    let stale : is_current t old b ≡ false = rw (is_current, live) (ground (arith, other)) in
    rw (unsubscribe, stale) refl
