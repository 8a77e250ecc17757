-- ===== src/TurnEnd/Grace.antt =====
-- A transcript that c-lord named and that has not appeared counts as tailed for one turn only
-- (c_lord/turn_end_bus.py, #1190 and #1223).
use c_lord.Prelude.{
  ℕ, suc, ◌+◌, ◌≤◌, Option, none, some, List, [], ◌∷◌, ◌≡◌, refl, ap, ◌∙◌, arith, nat_key,
  string_key, inl, inr, Option-cases, String, ◌⊎◌, contains, Bool-cases, All,
}
use c_lord.Prelude.Dict.{get, has, insert, get-insert_self, get-remove_self}
use c_lord.TurnEnd.{
  TurnEndBus, grant, grant_pending, note_pending_claim, note_turn_started, note_turn_ended,
  is_tailing, claim_grace,
}

-- What happens to one thread: a turn starts, a turn ends, the mirror sees or no longer sees a name.
pub data Call : Type 0 where
  starts : ℕ → Call
  ends : ℕ → Call
  claims : Option String → ℕ → Call

abbrev pub call : ℕ → Call → TurnEndBus → TurnEndBus
call t (starts now) b = (note_turn_started t now b).0
call t (ends token) b = note_turn_ended t token b
call t (claims key now) b = note_pending_claim t key now b

abbrev pub call_all : ℕ → List Call → TurnEndBus → TurnEndBus
call_all t [] b = b
call_all t (c ∷ cs) b = call_all t cs (call t c b)

-- No name but `key` is announced.
abbrev pub Names : String → Call → Type 0
Names key (claims (some other) now) = other ≡ key
Names key _ = Unit

-- `key` has had its turn at `at`, and no other name is pending.
pub record IsSpent (t : ℕ) (key : String) (at : ℕ) (b : TurnEndBus) : Type 0 where
  pub granted : get t b.claim_turn ≡ some (key, at)
  pub pending : (get t b.pending_claim ≡ none) ⊎ (get t b.pending_claim ≡ some key)

module _ (t : ℕ) (key : String) (at : ℕ) where
  grant_spent :
      (now : ℕ) (b : TurnEndBus) → get t b.claim_turn ≡ some (key, at) → grant t key now b ≡ b
  unfolding grant
  grant_spent now b h = ground (arith, string_key.same_iff key key)

  grant_pending-IsSpent :
      (o : Option String) (now : ℕ) (b : TurnEndBus)
      → (o ≡ none) ⊎ (o ≡ some key)
      → IsSpent t key at b
      → IsSpent t key at (grant_pending t o now b)
  unfolding grant_pending
  grant_pending-IsSpent none now b h s = s
  grant_pending-IsSpent (some k) now b (inl e) s = absurd (cc)
  grant_pending-IsSpent (some k) now b (inr e) s =
      let same : k ≡ key = cc in rw (same, grant_spent now b s.granted) s

  starts-IsSpent :
      (now : ℕ) (b : TurnEndBus)
      → IsSpent t key at b
      → IsSpent t key at (note_turn_started t now b).0
  unfolding note_turn_started
  starts-IsSpent now b s =
      grant_pending-IsSpent (get t b.pending_claim) now _ s.pending
        (record { granted = s.granted; pending = s.pending })

  ends-IsSpent :
      (token : ℕ) (b : TurnEndBus)
      → IsSpent t key at b
      → IsSpent t key at (note_turn_ended t token b)
  unfolding note_turn_ended
  ends-IsSpent token b s = record { granted = ground (arith, s.granted); pending = same }
    where
      kept : (note_turn_ended t token b).pending_claim ≡ b.pending_claim
      kept = ground arith

      same :
          (get t (note_turn_ended t token b).pending_claim ≡ none)
          ⊎ (get t (note_turn_ended t token b).pending_claim ≡ some key)
      same = rw kept s.pending

  claims-IsSpent :
      (o : Option String) (now : ℕ) (b : TurnEndBus)
      → Names key (claims o now)
      → IsSpent t key at b
      → IsSpent t key at (note_pending_claim t o now b)
  unfolding note_pending_claim grant_pending
  claims-IsSpent none now b h s = record {
    granted = s.granted;
    pending = inl (get-remove_self t b.pending_claim);
  }
  claims-IsSpent (some other) now b h s =
      let b' : TurnEndBus = record b { pending_claim = insert t other b.pending_claim } in
      let named : get t b'.pending_claim ≡ some key =
        get-insert_self t other b.pending_claim ∙ ap some h in
      let s' : IsSpent t key at b' = record { granted = s.granted; pending = inr named } in
      elim (Bool-cases (has t b.running_turn)) [
        | inl e ↦ rw e (grant_pending-IsSpent (some other) now b' (inr (ap some h)) s')
        | inr e ↦ rw e s'
      ]

  call-IsSpent :
      (c : Call) (b : TurnEndBus) → Names key c → IsSpent t key at b → IsSpent t key at (call t c b)
  call-IsSpent (starts now) b n s = starts-IsSpent now b s
  call-IsSpent (ends token) b n s = ends-IsSpent token b s
  call-IsSpent (claims o now) b n s = claims-IsSpent o now b n s

  call_all-IsSpent :
      (cs : List Call) (b : TurnEndBus)
      → All (Names key) cs
      → IsSpent t key at b
      → IsSpent t key at (call_all t cs b)
  call_all-IsSpent [] b n s = s
  call_all-IsSpent (c ∷ cs) b n s = call_all-IsSpent cs (call t c b) n.1 (call-IsSpent c b n.0 s)

-- A name gives one turn of grace: once it was granted, no later turn, no end of a turn and no
-- disappearance and return of the same name extends it, so 120 seconds after the grant the thread
-- counts as tailed only if a mirror is on its transcript.
pub is_tailing_spent :
    (t : ℕ) (key : String) (at now : ℕ) (b : TurnEndBus) (cs : List Call)
    → IsSpent t key at b
    → All (Names key) cs
    → at + claim_grace ≤ now
    → is_tailing t now (call_all t cs b) ≡ contains t (call_all t cs b).tailing
unfolding is_tailing
is_tailing_spent t key at now b cs s n h =
    let v : IsSpent t key at (call_all t cs b) = call_all-IsSpent t key at cs b n s in
    elim (Option-cases (get t (call_all t cs b).pending_claim)) [
      | inl e ↦ ground (arith, v.granted)
      | inr (k, e) ↦ ground (arith, v.granted)
    ]

running-grant_pending :
    (t : ℕ) (o : Option String) (now : ℕ) (b : TurnEndBus)
    → ((grant_pending t o now b).running_turn ≡ b.running_turn)
      × ((grant_pending t o now b).next_token ≡ b.next_token)
unfolding grant_pending grant
running-grant_pending t none now b = (refl, refl)
running-grant_pending t (some key) now b = (ground arith, ground arith)

running-note_turn_started :
    (t now : ℕ) (b : TurnEndBus)
    → (note_turn_started t now b).0.running_turn ≡ insert t b.next_token b.running_turn
unfolding note_turn_started
running-note_turn_started t now b = (running-grant_pending t (get t b.pending_claim) now _).0

next_token-note_turn_started :
    (t now : ℕ) (b : TurnEndBus) → (note_turn_started t now b).0.next_token ≡ suc b.next_token
unfolding note_turn_started
next_token-note_turn_started t now b = (running-grant_pending t (get t b.pending_claim) now _).1

token-note_turn_started :
    (t now : ℕ) (b : TurnEndBus) → (note_turn_started t now b).1 ≡ b.next_token
unfolding note_turn_started
token-note_turn_started t now b = refl

-- A turn that was displaced and ends late does not end the turn that displaced it; the end of the
-- turn that runs leaves none.
pub note_turn_ended_displaced :
    (t now later : ℕ) (b : TurnEndBus)
    → (note_turn_ended t
          (note_turn_started t now b).1
          (note_turn_started t later (note_turn_started t now b).0).0
        ≡ (note_turn_started t later (note_turn_started t now b).0).0)
      × (get t
            (note_turn_ended t
              (note_turn_started t later (note_turn_started t now b).0).1
              (note_turn_started t later (note_turn_started t now b).0).0).running_turn
          ≡ none)
unfolding note_turn_ended
note_turn_ended_displaced t now later b = (
  ground (
    arith,
    running,
    token-note_turn_started t now b,
    get-insert_self t (suc b.next_token) first.running_turn,
  ),
  ground (
    arith,
    running,
    token-note_turn_started t later first,
    next_token-note_turn_started t now b,
    get-insert_self t (suc b.next_token) first.running_turn,
    get-remove_self t second.running_turn,
  ),
)
  where
    first : TurnEndBus
    first = (note_turn_started t now b).0

    second : TurnEndBus
    second = (note_turn_started t later first).0

    running : second.running_turn ≡ insert t (suc b.next_token) first.running_turn
    running =
        running-note_turn_started t later first
        ∙ ap (λ token. insert t token first.running_turn) (next_token-note_turn_started t now b)
