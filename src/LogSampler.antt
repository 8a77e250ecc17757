-- ===== src/LogSampler.antt =====
-- c_lord/log_sampler.py: at most one INFO line for a key in a window. The clock is an argument.
pub mod Rate
pub mod Eviction
mod Examples
use c_lord.Prelude.{
  ℕ, zero, suc, ◌+◌, Bool, true, false, not, ◌||◌, Option, none, some, List, [], ◌∷◌, ltb, leb,
  if◌then◌else◌, keep, length, Key, ◌==◌, is_some,
}
use c_lord.Prelude.Dict.{Dict, get, has, insert, remove}
use c_lord.Prelude.Fifo.{evict}

pub record Sample : Type 0 where
  pub emit : Bool
  pub suppressed : ℕ
  pub window : ℕ

pub record Sampler {ℓ} (K : Type ℓ) : Type ℓ where
  pub window : ℕ
  pub max_keys : ℕ
  pub last_emit : Dict K ℕ
  pub counts : Dict K ℕ  -- `_suppressed`

unfoldable pub new_sampler {ℓ} : {K : Type ℓ} → ℕ → ℕ → Sampler K
new_sampler window max_keys = record {
  window = window;
  max_keys = max_keys;
  last_emit = [];
  counts = [];
}

-- `now - emitted_at >= self._window`
abbrev pub is_past : ℕ → ℕ → ℕ → Bool
is_past window now emitted_at = leb (emitted_at + window) now

-- `last is not None and now - last < self._window`
abbrev pub is_quiet : Option ℕ → ℕ → ℕ → Bool
is_quiet none now window = false
is_quiet (some last) now window = ltb now (last + window)

module _ {ℓ} {K : Type ℓ} ⦃key : Key K⦄ where
  abbrev pub count_of : K → Dict K ℕ → ℕ
  count_of k counts = elim (get k counts) [ some n ↦ n | none ↦ 0 ]

  -- Each key that goes takes its count with it.
  unfoldable pub forget_dropped : Dict K ℕ → Dict K ℕ → Dict K ℕ → Dict K ℕ
  forget_dropped before kept counts = keep (λ p. not (has p.0 before) || has p.0 kept) counts

  unfoldable pub prune : ℕ → Sampler K → Sampler K
  unfolding forget_dropped
  prune now s =
      if leb (length s.last_emit) s.max_keys
      then s
      else let kept = evict s.max_keys (keep (λ p. not (is_past s.window now p.1)) s.last_emit) in
        record s { last_emit = kept; counts = forget_dropped s.last_emit kept s.counts }

  unfoldable pub sample : K → ℕ → Sampler K → Sampler K × Sample
  unfolding prune
  sample k now s =
      if is_quiet (get k s.last_emit) now s.window
      then (
        record s { counts = insert k (count_of k s.counts + 1) s.counts },
        record { emit = false; suppressed = 0; window = 0 },
      )
      else (
        prune now (record s { last_emit = insert k now s.last_emit; counts = remove k s.counts }),
        record { emit = true; suppressed = count_of k s.counts; window = s.window },
      )

  unfoldable pub tracked_keys : Sampler K → ℕ
  tracked_keys s = length s.last_emit
