-- ===== src/LogSampler/Examples.antt =====
-- Runs of the sampler, and its theorems at them.
use c_lord.Prelude.{
  ℕ, ◌+◌, ◌≤◌, ◌<◌, true, none, [], ◌∷◌, ◌≡◌, refl, arith, All, nat_key, string_key, String,
}
use c_lord.Prelude.Dict.{get, insert, remove}
use c_lord.Prelude.Fifo.{evict}
use c_lord.LogSampler.{Sampler, new_sampler, sample, prune, forget_dropped, tracked_keys}
use c_lord.LogSampler.Rate.{HasSilenced}
use c_lord.LogSampler.Eviction.{IsFull, sample_head_forgotten}

program : Unit {0}
unfolding new_sampler sample prune forget_dropped tracked_keys get insert remove evict
program = tt

abbrev once : Sampler String
once = (sample "a" 100 (new_sampler 600 2)).0

once-HasSilenced : HasSilenced "a" 100 0 once
unfolding program
once-HasSilenced = record { emitted = refl; silenced = refl }

counted : (sample "a" 700 (sample "a" 699 (sample "a" 101 once).0).0).1.suppressed ≡ 2
unfolding program
counted = refl

once_window : once.window ≡ 600
unfolding program
once_window = refl

in_window : All (λ t. t < 100 + once.window) (101 ∷ 699 ∷ [])
unfolding program
in_window = omega arith

at_the_end : 100 + once.window ≤ 700
unfolding program
at_the_end = omega arith

-- Key 1 stands at the head of a table of two, and is due at 700.
abbrev full : Sampler ℕ
full = record { window = 600; max_keys = 2; last_emit = (1, 100) ∷ (2, 650) ∷ []; counts = [] }

full-IsFull : IsFull 1 100 ((2, 650) ∷ []) 700 full
unfolding get
full-IsFull = record {
  table = refl;
  full = refl;
  window_open = omega arith;
  due = omega arith;
  alone = refl;
  recent = (refl, tt);
}

three_unknown : get 3 full.last_emit ≡ none
unfolding get
three_unknown = refl

sample_head_forgotten_example :
    ((sample 1 700 full).1.emit ≡ true)
    × ((sample 1 701 (sample 3 700 (sample 1 700 full).0).0).1.emit ≡ true)
sample_head_forgotten_example =
    sample_head_forgotten 1 3 100 700 ((2, 650) ∷ []) full 701 full-IsFull three_unknown refl
