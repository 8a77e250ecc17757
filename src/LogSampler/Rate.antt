-- ===== src/LogSampler/Rate.antt =====
-- How often a key reaches INFO, and what its line counts (c_lord/log_sampler.py).
use c_lord.Prelude.{
  ℕ, ◌+◌, ◌≤◌, ◌<◌, Bool, true, false, none, some, List, [], ◌∷◌, ◌≡◌, sym, ◌∙◌, refl, inl, inr,
  arith, leb, length, Key, All, Bool-cases,
}
use mathlib.Core.Path.{subst}
use c_lord.Prelude.Dict.{get, get-insert_self}
use c_lord.Prelude.Fifo.{length-evict-le}
use c_lord.LogSampler.{Sampler, new_sampler, count_of, prune, is_quiet, sample, tracked_keys}

module _ {ℓ} {K : Type ℓ} ⦃key : Key K⦄ where
  -- The occurrences of one key, and the answers to them.
  abbrev pub sample_all : K → List ℕ → Sampler K → Sampler K × List Bool
  sample_all k [] s = (s, [])
  sample_all k (now ∷ times) s =
      let (s', answer) = sample k now s in
      let (s'', answers) = sample_all k times s' in (s'', answer.emit ∷ answers)

  -- `k` was emitted at `last`, and `n` occurrences were silenced since.
  pub record HasSilenced (k : K) (last n : ℕ) (s : Sampler K) : Type ℓ where
    pub emitted : get k s.last_emit ≡ some last
    pub silenced : count_of k s.counts ≡ n

  sample_quiet :
      (k : K) (now last n : ℕ) (s : Sampler K)
      → HasSilenced k last n s
      → now < last + s.window
      → ((sample k now s).1.emit ≡ false)
        × HasSilenced k last (n + 1) (sample k now s).0
        × ((sample k now s).0.window ≡ s.window)
  unfolding sample
  sample_quiet k now last n s h lt =
      let quiet : is_quiet (get k s.last_emit) now s.window ≡ true = ground (arith, h.emitted) in
      (
        rw quiet,
        rw quiet (record {
          emitted = h.emitted;
          silenced =
              ground (arith, h.silenced, get-insert_self k (count_of k s.counts + 1) s.counts);
        }),
        rw quiet,
      )

  quiet_run :
      (k : K) (last n : ℕ) (times : List ℕ) (s : Sampler K)
      → HasSilenced k last n s
      → All (λ now. now < last + s.window) times
      → All (λ answer. answer ≡ false) (sample_all k times s).1
        × HasSilenced k last (n + length times) (sample_all k times s).0
        × ((sample_all k times s).0.window ≡ s.window)
  quiet_run k last n [] s h early =
      (tt, record { emitted = h.emitted; silenced = omega (arith, h.silenced) }, refl)
  quiet_run k last n (now ∷ times) s h early =
      let (silent, h', w) = sample_quiet k now last n s h early.0 in
      let early' : All (λ t. t < last + (sample k now s).0.window) times =
        subst (λ v. All (λ t. t < last + v) times) (sym w) early.1 in
      let (rest, h'', w') = quiet_run k last (n + 1) times (sample k now s).0 h' early' in
      (
        (silent, rest),
        record { emitted = h''.emitted; silenced = h''.silenced ∙ omega arith },
        w' ∙ w,
      )

  -- After a line for a key, no further occurrence of it inside the window is a line, and the next
  -- occurrence at the end of the window or later is one, and counts exactly those in between.
  pub sample_all-silenced :
      (k : K) (last now : ℕ) (times : List ℕ) (s : Sampler K)
      → HasSilenced k last 0 s
      → All (λ t. t < last + s.window) times
      → last + s.window ≤ now
      → All (λ answer. answer ≡ false) (sample_all k times s).1
        × ((sample k now (sample_all k times s).0).1
            ≡ record { emit = true; suppressed = length times; window = s.window })
  unfolding sample
  sample_all-silenced k last now times s h early late =
      let (rest, h', w) = quiet_run k last 0 times s h early in
      let s' = (sample_all k times s).0 in
      let loud : is_quiet (get k s'.last_emit) now s'.window ≡ false = ground (arith, h'.emitted) in
      (rest, ground (arith, h'.silenced))

  -- The first occurrence of a key is a line.
  pub sample_first :
      (k : K) (now : ℕ) (s : Sampler K) → get k s.last_emit ≡ none → (sample k now s).1.emit ≡ true
  unfolding sample
  sample_first k now s h = rw h

  tracked_keys-prune : (now : ℕ) (s : Sampler K) → tracked_keys (prune now s) ≤ s.max_keys
  unfolding prune tracked_keys
  tracked_keys-prune now s = elim (Bool-cases (leb (length s.last_emit) s.max_keys)) [
    | inl e ↦ rw e (ground arith)
    | inr e ↦ rw e (length-evict-le s.max_keys _)
  ]

  max_keys-prune : (now : ℕ) (s : Sampler K) → (prune now s).max_keys ≡ s.max_keys
  unfolding prune
  max_keys-prune now s = ground arith

  abbrev pub sample_keys : List (K × ℕ) → Sampler K → Sampler K
  sample_keys [] s = s
  sample_keys ((k, now) ∷ rest) s = sample_keys rest (sample k now s).0

  sample_bound :
      (k : K) (now : ℕ) (s : Sampler K)
      → tracked_keys s ≤ s.max_keys
      → (tracked_keys (sample k now s).0 ≤ s.max_keys) × ((sample k now s).0.max_keys ≡ s.max_keys)
  unfolding sample tracked_keys
  sample_bound k now s h = elim (Bool-cases (is_quiet (get k s.last_emit) now s.window)) [
    | inl e ↦ rw e (h, refl)
    | inr e ↦ rw e (tracked_keys-prune now _, max_keys-prune now _)
  ]

  sample_keys_bound :
      (events : List (K × ℕ)) (s : Sampler K)
      → tracked_keys s ≤ s.max_keys
      → tracked_keys (sample_keys events s) ≤ s.max_keys
  sample_keys_bound [] s h = h
  sample_keys_bound ((k, now) ∷ rest) s h =
      let (b, m) = sample_bound k now s h in
      let fits : tracked_keys (sample k now s).0 ≤ (sample k now s).0.max_keys = rw m b in
      subst (λ v. tracked_keys (sample_keys rest (sample k now s).0) ≤ v) m
        (sample_keys_bound rest (sample k now s).0 fits)

  -- Whatever keys occur, and in whatever order, the table never holds more than its bound.
  pub tracked_keys-sample_keys :
      (window max_keys : ℕ) (events : List (K × ℕ))
      → tracked_keys (sample_keys events (new_sampler window max_keys)) ≤ max_keys
  unfolding new_sampler tracked_keys
  tracked_keys-sample_keys window max_keys events =
      sample_keys_bound events (new_sampler window max_keys) (omega arith)
