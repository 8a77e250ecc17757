-- ===== src/IdleSweep/Walk.antt =====
-- The walk of a sweep over the threads that are due (c_lord/idle_sweep.py, `IdleSweepLoop.tick`).
use c_lord.Prelude.{
  length, ℕ, ◌+◌, ◌≤◌, Bool, true, false, ◌&&◌, ◌||◌, List, [], ◌∷◌, contains, contains-append,
  nat_key, ◌==◌, leb, ◌≡◌, ◌⊎◌, refl, sym, inl, inr, arith, Bool-cases, subst,
}
use c_lord.Prelude.Ranked.{In}
use c_lord.IdleSweep.Sweep.{
  Fetch, cached, fetched, not_found, forbidden, failed, Host, Hooks, Tick, resolve_thread, settle,
  visit, visit_all,
}

-- Discord has the thread.
abbrev pub is_reachable : Fetch → Bool
is_reachable cached = true
is_reachable fetched = true
is_reachable not_found = false
is_reachable forbidden = false
is_reachable failed = false

-- Discord says that there is no such thread for the bot.
abbrev pub is_gone : Fetch → Bool
is_gone cached = false
is_gone fetched = false
is_gone not_found = true
is_gone forbidden = true
is_gone failed = false

module _ (hooks : Hooks) (host : Host) where
  visit_reached :
      (t : ℕ) (s : Tick)
      → is_reachable (host.fetch t) ≡ true
      → (visit hooks host t s).tried ≡ t ∷ s.tried
  unfolding visit resolve_thread settle
  visit_reached t s h = ground (arith, h)

  visit_lost :
      (t : ℕ) (s : Tick)
      → is_reachable (host.fetch t) ≡ false
      → let v = visit hooks host t s in
        (v.tried ≡ s.tried) × (v.acted ≡ s.acted) × (v.spent ≡ s.spent)
  unfolding visit resolve_thread settle
  visit_lost t s h = (ground (arith, h), ground (arith, h), ground (arith, h))

  visit_gone :
      (t u : ℕ) (s : Tick)
      → contains u (visit hooks host t s).unresolvable
        ≡ (contains u s.unresolvable || ((t == u) && is_gone (host.fetch t)))
  unfolding visit resolve_thread settle
  visit_gone t u s = ground (arith, contains-append u s.unresolvable (t ∷ []))

  visit_spent :
      (t : ℕ) (s : Tick)
      → s.spent ≤ length s.tried
      → (visit hooks host t s).spent ≤ length (visit hooks host t s).tried
  unfolding visit resolve_thread settle
  visit_spent t s h = ground (arith, h)

  visit_gone_cases :
      (t u : ℕ) (s : Tick)
      → contains u (visit hooks host t s).unresolvable ≡ true
      → (contains u s.unresolvable ≡ true) ⊎ (is_gone (host.fetch u) ≡ true)
  visit_gone_cases t u s h = elim (Bool-cases (contains u s.unresolvable)) [
    | inl before ↦ inl before
    | inr new ↦
        let both : ((t == u) && is_gone (host.fetch t)) ≡ true =
          ground (arith, visit_gone t u s, h, new) in
        let same : t ≡ u = (nat_key.same_iff t u).0 (ground (arith, both)) in
        let gone : is_gone (host.fetch t) ≡ true = ground (arith, both) in
        inr (subst (λ v. is_gone (host.fetch v) ≡ true) same gone)
  ]

  visit_counts :
      (t : ℕ) (s : Tick)
      → ((v : ℕ) → hooks.spent_budget v true ≡ true)
      → s.acted ≤ s.spent
      → let v = visit hooks host t s in (v.acted ≤ v.spent) × (v.spent ≤ s.spent + 1)
  unfolding visit resolve_thread settle
  visit_counts t s h k = (ground (arith, h t, k), ground (arith, h t, k))

  visit_tried :
      (t : ℕ) (s : Tick)
      → ((visit hooks host t s).tried ≡ t ∷ s.tried) ⊎ ((visit hooks host t s).tried ≡ s.tried)
  visit_tried t s = elim (Bool-cases (is_reachable (host.fetch t))) [
    | inl here ↦ inl (visit_reached t s here)
    | inr lost ↦ inr (visit_lost t s lost).0
  ]

  -- What one more thread means for those tried before.
  In-visit : (t u : ℕ) (s : Tick) → In u s.tried → In u (visit hooks host t s).tried
  In-visit t u s i = elim (visit_tried t s) [ inl e ↦ rw e (inr i) | inr e ↦ rw e i ]

  In-visit_self :
      (t u : ℕ) (s : Tick)
      → u ≡ t
      → is_reachable (host.fetch u) ≡ true
      → In u (visit hooks host t s).tried
  In-visit_self t u s e here = rw (visit_reached t s (rw e at here)) (inl e)

  visit_due :
      (t u : ℕ) (due : List ℕ) (s : Tick)
      → In u (visit hooks host t s).tried
      → In u s.tried ⊎ In u (t ∷ due)
  visit_due t u due s i = elim (visit_tried t s) [
    | inl e ↦ elim (rw e at i) [ inl this ↦ inr (inl this) | inr before ↦ inl before ]
    | inr e ↦ inl (rw e at i)
  ]

  module _ (max_per_tick : ℕ) where
    visit_all_stops :
        (t : ℕ) (due : List ℕ) (s : Tick)
        → (leb max_per_tick s.spent || hooks.tick_exhausted s.tried) ≡ true
        → visit_all hooks host max_per_tick (t ∷ due) s ≡ s
    unfolding visit_all
    visit_all_stops t due s h = rw h refl

    visit_all_goes_on :
        (t : ℕ) (due : List ℕ) (s : Tick)
        → (leb max_per_tick s.spent || hooks.tick_exhausted s.tried) ≡ false
        → visit_all hooks host max_per_tick (t ∷ due) s
          ≡ visit_all hooks host max_per_tick due (visit hooks host t s)
    unfolding visit_all
    visit_all_goes_on t due s h = rw h refl

    -- A property of the end of the walk, from the state where it ends and from each visit.
    visit_all_cases {ℓ} :
        (P : Tick → Type ℓ) (t : ℕ) (due : List ℕ) (s : Tick)
        → ((leb max_per_tick s.spent || hooks.tick_exhausted s.tried) ≡ true → P s)
        → ((leb max_per_tick s.spent || hooks.tick_exhausted s.tried) ≡ false
            → P (visit_all hooks host max_per_tick due (visit hooks host t s)))
        → P (visit_all hooks host max_per_tick (t ∷ due) s)
    visit_all_cases P t due s f g =
        elim (Bool-cases (leb max_per_tick s.spent || hooks.tick_exhausted s.tried)) [
          | inl over ↦ subst P (sym (visit_all_stops t due s over)) (f over)
          | inr more ↦ subst P (sym (visit_all_goes_on t due s more)) (g more)
        ]

    In-visit_all :
        (u : ℕ) (due : List ℕ) (s : Tick)
        → In u s.tried
        → In u (visit_all hooks host max_per_tick due s).tried
    unfolding visit_all
    In-visit_all u [] s i = i
    In-visit_all u (t ∷ due) s i =
        visit_all_cases (λ r. In u r.tried) t due s (λ over. i)
          (λ more. In-visit_all u due (visit hooks host t s) (In-visit t u s i))

    -- Only what is due is tried.
    pub visit_all_due :
        (u : ℕ) (due : List ℕ) (s : Tick)
        → In u (visit_all hooks host max_per_tick due s).tried
        → In u s.tried ⊎ In u due
    unfolding visit_all
    visit_all_due u [] s i = inl i
    visit_all_due u (t ∷ due) s i =
        visit_all_cases (λ r. In u r.tried → In u s.tried ⊎ In u (t ∷ due)) t due s
          (λ over j. inl j)
          (λ more j. elim (visit_all_due u due (visit hooks host t s) j) [
            | inr later ↦ inr (inr later)
            | inl now ↦ visit_due t u due s now
          ])
          i

    -- A thread that cannot be reached costs no budget.
    pub visit_all_spent :
        (due : List ℕ) (s : Tick)
        → s.spent ≤ length s.tried
        → let r = visit_all hooks host max_per_tick due s in r.spent ≤ length r.tried
    unfolding visit_all
    visit_all_spent [] s h = h
    visit_all_spent (t ∷ due) s h =
        visit_all_cases (λ r. r.spent ≤ length r.tried) t due s (λ over. h)
          (λ more. visit_all_spent due (visit hooks host t s) (visit_spent t s h))

    -- The walk reaches every thread that can be reached, unless its budget is spent.
    pub visit_all_fair :
        (due : List ℕ) (s : Tick)
        → ((tried : List ℕ) → hooks.tick_exhausted tried ≡ false)
        → let r = visit_all hooks host max_per_tick due s in
          (max_per_tick ≤ r.spent)
          ⊎ ((u : ℕ) → In u due → is_reachable (host.fetch u) ≡ true → In u r.tried)
    unfolding visit_all
    visit_all_fair [] s h = inr (λ u i. absurd i)
    visit_all_fair (t ∷ due) s h =
        visit_all_cases
          (λ r.
            (max_per_tick ≤ r.spent)
            ⊎ ((u : ℕ) → In u (t ∷ due) → is_reachable (host.fetch u) ≡ true → In u r.tried))
          t due s (λ over. inl (ground (arith, over, h s.tried)))
          (λ more. elim (visit_all_fair due (visit hooks host t s) h) [
            | inl spent ↦ inl spent
            | inr all ↦ inr (λ u i here. elim i [
              | inr later ↦ all u later here
              | inl e ↦ In-visit_all u due (visit hooks host t s) (In-visit_self t u s e here)
            ])
          ])

    pub visit_all_counts :
        (due : List ℕ) (s : Tick)
        → ((v : ℕ) → hooks.spent_budget v true ≡ true)
        → s.acted ≤ s.spent
        → s.spent ≤ max_per_tick
        → let r = visit_all hooks host max_per_tick due s in
          (r.acted ≤ r.spent) × (r.spent ≤ max_per_tick)
    unfolding visit_all
    visit_all_counts [] s h k l = (k, l)
    visit_all_counts (t ∷ due) s h k l =
        let (counted, one) = visit_counts t s h k in
        visit_all_cases (λ r. (r.acted ≤ r.spent) × (r.spent ≤ max_per_tick)) t due s
          (λ over. (k, l))
          (λ more.
            visit_all_counts due (visit hooks host t s) h counted (ground (arith, more, one)))

    -- Who is written off: those who were, and those whom Discord calls gone.
    pub visit_all_gone :
        (u : ℕ) (due : List ℕ) (s : Tick)
        → contains u (visit_all hooks host max_per_tick due s).unresolvable ≡ true
        → (contains u s.unresolvable ≡ true) ⊎ (is_gone (host.fetch u) ≡ true)
    unfolding visit_all
    visit_all_gone u [] s h = inl h
    visit_all_gone u (t ∷ due) s h =
        visit_all_cases
          (λ r.
            contains u r.unresolvable ≡ true
            → (contains u s.unresolvable ≡ true) ⊎ (is_gone (host.fetch u) ≡ true))
          t due s (λ over k. inl k)
          (λ more k. elim (visit_all_gone u due (visit hooks host t s) k) [
            | inr gone ↦ inr gone
            | inl now ↦ visit_gone_cases t u s now
          ])
          h
