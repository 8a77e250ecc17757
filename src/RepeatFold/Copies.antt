-- ===== src/RepeatFold/Copies.antt =====
-- How many copies reach the thread on their own (c_lord/transcript/repeat_fold.py, `offer`).
use c_lord.Prelude.{
  ℕ, suc, ◌+◌, ◌-◌, ◌≤◌, ◌<◌, String, true, not, ◌&&◌, Option, List, [], ◌∷◌, ◌++◌, contains, keep,
  length, length-append, contains-append, length-keep-le, if◌then◌else◌, string_key, nat_key, ◌==◌,
  ◌≡◌, refl, inl, inr, arith, All, Option-cases,
}
use c_lord.Prelude.Fifo.{length-evict-le, evict_of_length-le}
use c_lord.RepeatFold.{Fold, recent_distinct, remember, flush, fold_copy, offer}

contains-keep :
    (x line : String) (r : List String)
    → contains x (keep (λ l. not (l == line)) r) ≡ (contains x r && not (x == line))
contains-keep x line [] = refl
contains-keep x line (y ∷ r) = ground (
  arith,
  contains-keep x line r,
  string_key.same_iff y x,
  string_key.same_iff y line,
  string_key.same_iff x line,
)

length-keep-lt :
    (line : String) (r : List String)
    → contains line r ≡ true
    → length (keep (λ l. not (l == line)) r) < length r
length-keep-lt line [] h = ground arith
length-keep-lt line (y ∷ r) h =
    ground (arith, length-keep-lt line r, length-keep-le (λ l. not (l == line)) r)

pub length-remember-le :
    (line : String) (r : List String) → length (remember line r) ≤ recent_distinct
unfolding remember
length-remember-le line r =
    length-evict-le recent_distinct (keep (λ l. not (l == line)) r ++ (line ∷ []))

-- Seeing a known line again drops no line.
contains-remember :
    (x line : String) (r : List String)
    → length r ≤ recent_distinct
    → contains line r ≡ true
    → contains x r ≡ true
    → contains x (remember line r) ≡ true
unfolding remember
contains-remember x line r room known h =
    let kept = keep (λ l. not (l == line)) r in
    rw
      (evict_of_length-le recent_distinct (kept ++ (line ∷ []))
        (omega (arith, length-append kept (line ∷ []), length-keep-lt line r known)))
      (ground (
        arith,
        contains-append x kept (line ∷ []),
        contains-keep x line r,
        string_key.same_iff line x,
        string_key.same_iff x line,
      ))

fold_copy-keeps :
    (now : ℕ) (handle : Option ℕ) (line : String) (f : Fold)
    → let r = (fold_copy now handle line f).0 in
      (r.recent ≡ f.recent)
      × (r.armed ≡ true)
      × (r.streak ≡ f.streak)
      × (r.fold_after ≡ f.fold_after)
unfolding fold_copy flush
fold_copy-keeps now handle line f = elim (Option-cases f.handle) [
  | inl closed ↦ ground (arith, closed)
  | inr (h, opened) ↦ ground (arith, opened)
]

-- An offer: the time, what posting the counter would give, and the line.
abbrev pub Offer : Type 0
Offer = ℕ × Option ℕ × String

-- How many more copies reach the thread on their own.
abbrev allowance : Fold → ℕ
allowance f = if f.armed then 0 else f.fold_after - suc f.streak

module _ (strip : String → String) where
  offer_copy :
      (o : Offer) (f : Fold)
      → contains (strip o.2) f.recent ≡ true
      → let r = offer strip o.0 o.1 o.2 f in
        (r.0.recent ≡ remember (strip o.2) f.recent)
        × ((if r.1 then 0 else 1) + allowance r.0 ≤ allowance f)
  unfolding offer
  offer_copy (now, handle, body) f h =
      let f' : Fold = record f { recent = remember (strip body) f.recent; streak = f.streak + 1 } in
      ground (arith, h, fold_copy-keeps now handle (strip body) f')

  -- The lines of a run that are posted, not folded.
  abbrev pub unfolded : List Offer → Fold → ℕ
  unfolded [] f = 0
  unfolded (o ∷ offers) f =
      let r = offer strip o.0 o.1 o.2 f in (if r.1 then 0 else 1) + unfolded offers r.0

  All-known :
      (line : String) (offers : List Offer) (r : List String)
      → length r ≤ recent_distinct
      → contains line r ≡ true
      → All (λ (o : Offer). contains (strip o.2) r ≡ true) offers
      → All (λ (o : Offer). contains (strip o.2) (remember line r) ≡ true) offers
  All-known line [] r room known a = tt
  All-known line (o ∷ offers) r room known a =
      (contains-remember (strip o.2) line r room known a.0, All-known line offers r room known a.1)

  unfolded-allowance :
      (offers : List Offer) (f : Fold)
      → length f.recent ≤ recent_distinct
      → All (λ (o : Offer). contains (strip o.2) f.recent ≡ true) offers
      → unfolded offers f ≤ allowance f
  unfolded-allowance [] f room a = omega arith
  unfolded-allowance (o ∷ offers) f room a =
      let r = offer strip o.0 o.1 o.2 f in
      let (seen, spent) = offer_copy o f a.0 in
      let still : All (λ (u : Offer). contains (strip u.2) r.0.recent ≡ true) offers =
        rw seen (All-known (strip o.2) offers f.recent room a.0 a.1) in
      let fits : length r.0.recent ≤ recent_distinct =
        rw seen (length-remember-le (strip o.2) f.recent) in
      omega (arith, spent, unfolded-allowance offers r.0 fits still)

  -- With at most eight lines remembered, and each line of the run one of them: fewer than
  -- `fold_after` of the copies since the last new line are posted on their own, however long the run
  -- is and whatever the order, and none once the turn has been seen looping. All others are folded.
  pub unfolded-le :
      (offers : List Offer) (f : Fold)
      → length f.recent ≤ recent_distinct
      → All (λ (o : Offer). contains (strip o.2) f.recent ≡ true) offers
      → (unfolded offers f ≤ f.fold_after - suc f.streak) × (f.armed ≡ true → unfolded offers f ≡ 0)
  unfolded-le offers f room a =
      let h = unfolded-allowance offers f room a in (ground arith, λ armed. ground arith)
