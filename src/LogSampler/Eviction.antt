-- ===== src/LogSampler/Eviction.antt =====
-- Which key makes room when the table is full (c_lord/log_sampler.py, `_prune`).
use mathlib.Core.Path.{subst}
use c_lord.Prelude.{
  ℕ, ◌+◌, ◌≤◌, ◌<◌, true, false, not, none, [], ◌∷◌, ◌++◌, ◌≡◌, sym, ◌∙◌, refl, ap, arith, leb,
  keep, length, Key, ◌==◌, All, keep-All, length-append,
}
use c_lord.Prelude.Dict.{Dict, get, insert, insert_new}
use c_lord.Prelude.Fifo.{evict, evict_one}
use c_lord.LogSampler.{Sampler, is_past, prune, is_quiet, sample}
use c_lord.LogSampler.Rate.{sample_first}

module _ {ℓ} {K : Type ℓ} ⦃key : Key K⦄ where
  -- A full table of lines that are all inside the window, but for the key at its head.
  pub record IsFull (k : K) (last : ℕ) (rest : Dict K ℕ) (now : ℕ) (s : Sampler K) : Type ℓ where
    pub table : s.last_emit ≡ (k, last) ∷ rest
    pub full : length rest + 1 ≡ s.max_keys
    pub window_open : 0 < s.window
    pub due : last + s.window ≤ now
    pub alone : get k rest ≡ none
    pub recent : All (λ p. is_past s.window now p.1 ≡ false) rest

  get-append_ne :
      (k j : K) (v : ℕ) (d : Dict K ℕ)
      → (j == k) ≡ false
      → get k d ≡ none
      → get k (d ++ ((j, v) ∷ [])) ≡ none
  unfolding get
  get-append_ne k j v [] ne h = ground arith
  get-append_ne k j v ((i, w) ∷ d) ne h = ground (arith, get-append_ne k j v d)

  All-append {κ} :
      (P : K × ℕ → Type κ) (xs : Dict K ℕ) (y : K × ℕ) → All P xs → P y → All P (xs ++ (y ∷ []))
  All-append P [] y h p = (p, tt)
  All-append P (x ∷ xs) y h p = (h.0, All-append P xs y h.1 p)

  not_past :
      (window now : ℕ) (d : Dict K ℕ)
      → All (λ p. is_past window now p.1 ≡ false) d
      → All (λ p. not (is_past window now p.1) ≡ true) d
  not_past window now [] h = tt
  not_past window now (x ∷ d) h = (rw h.0 refl, not_past window now d h.1)

  module _ (k j : K) (last now : ℕ) (rest : Dict K ℕ) (s : Sampler K) where
    -- The key at the head is emitted again, and keeps its place.
    head_again :
        IsFull k last rest now s
        → ((sample k now s).0.last_emit ≡ (k, now) ∷ rest)
          × ((sample k now s).0.window ≡ s.window)
          × ((sample k now s).0.max_keys ≡ s.max_keys)
    unfolding sample prune get insert
    head_again h =
        let loud : is_quiet (get k s.last_emit) now s.window ≡ false =
          rw h.table (ground (arith, key.same_iff k k, h.due)) in
        let placed : insert k now s.last_emit ≡ (k, now) ∷ rest =
          rw h.table (ground (arith, key.same_iff k k)) in
        let fits : leb (length ((k, now) ∷ rest)) s.max_keys ≡ true = ground (arith, h.full) in
        (rw (loud, placed, fits), rw (loud, placed, fits), rw (loud, placed, fits))

    first_line : IsFull k last rest now s → (sample k now s).1.emit ≡ true
    unfolding sample get
    first_line h =
        let loud : is_quiet (get k s.last_emit) now s.window ≡ false =
          rw h.table (ground (arith, key.same_iff k k, h.due)) in
        rw loud

    unknown_j :
        IsFull k last rest now s
        → get j s.last_emit ≡ none
        → (j == k) ≡ false
        → get j ((k, now) ∷ rest) ≡ none
    unfolding get
    unknown_j h new ne =
        let old : get j ((k, last) ∷ rest) ≡ none = rw h.table at new in
        ground (arith, key.same_iff k j, key.same_iff j k)

    newcomer :
        (t : Sampler K)
        → t.last_emit ≡ (k, now) ∷ rest
        → length rest + 1 ≡ t.max_keys
        → 0 < t.window
        → All (λ p. is_past t.window now p.1 ≡ false) rest
        → get j t.last_emit ≡ none
        → (sample j now t).0.last_emit ≡ rest ++ ((j, now) ∷ [])
    unfolding sample prune
    newcomer t table full open_window recent new =
        let d : Dict K ℕ = ((k, now) ∷ rest) ++ ((j, now) ∷ []) in
        let placed : insert j now t.last_emit ≡ d =
          insert_new j now t.last_emit new ∙ ap (λ e. e ++ ((j, now) ∷ [])) table in
        let size : length (rest ++ ((j, now) ∷ [])) ≡ t.max_keys =
          length-append rest ((j, now) ∷ []) ∙ full in
        let over : leb (length d) t.max_keys ≡ false = ground (arith, size) in
        let young : is_past t.window now now ≡ false = ground (arith, open_window) in
        let stay : keep (λ p. not (is_past t.window now p.1)) d ≡ d =
          keep-All (λ p. not (is_past t.window now p.1)) d
            (
              rw young refl,
              All-append _ rest (j, now) (not_past t.window now rest recent) (rw young refl),
            ) in
        rw (new, placed, over, stay)
          (subst (λ n. evict n d ≡ rest ++ ((j, now) ∷ [])) size
            (evict_one (k, now) (rest ++ ((j, now) ∷ []))))

    -- The key that was inserted first goes when a new key finds the table full, also if it is the
    -- one that was emitted last: `k` fills the head of the table and is due, every other entry is
    -- inside the window, `k` is emitted at `now` and a new key right after it; then the next
    -- occurrence of `k` is a line at any time, so also inside the window of its last one.
    pub sample_head_forgotten :
        (later : ℕ)
        → IsFull k last rest now s
        → get j s.last_emit ≡ none
        → (j == k) ≡ false
        → ((sample k now s).1.emit ≡ true)
          × ((sample k later (sample j now (sample k now s).0).0).1.emit ≡ true)
    sample_head_forgotten later h new ne =
        let t = (sample k now s).0 in
        let (table, w, m) = head_again h in
        let unknown : get j t.last_emit ≡ none = rw table (unknown_j h new ne) in
        let after : (sample j now t).0.last_emit ≡ rest ++ ((j, now) ∷ []) =
          newcomer t table (h.full ∙ sym m) (rw w h.window_open) (rw w h.recent) unknown in
        let gone : get k (sample j now t).0.last_emit ≡ none =
          rw after (get-append_ne k j now rest ne h.alone) in
        (first_line h, sample_first k later (sample j now t).0 gone)
