-- ===== src/RepeatFold.antt =====
-- c_lord/transcript/repeat_fold.py: `RepeatFold`, which folds the copies of a loop into one counter
-- message. `strip` is Python's; what the counter's post gives back is an argument, and the clock
-- counts milliseconds. An edit or post is an effect with the counts that its text renders.
pub mod Copies
pub mod Counter
mod Examples
use c_lord.Prelude.{
  ℕ, suc, ◌+◌, ◌-◌, String, Bool, true, false, not, ◌&&◌, ◌||◌, Option, none, some, List, [], ◌∷◌,
  ◌++◌, contains, keep, length, if◌then◌else◌, string_key, nat_key, ◌==◌, leb, is_some,
}
use c_lord.Prelude.Dict.{Dict, get, insert}
use c_lord.Prelude.Fifo.{evict}

abbrev pub repeat_fold_after : ℕ
repeat_fold_after = 3

abbrev pub recent_distinct : ℕ
recent_distinct = 8

abbrev pub edit_interval : ℕ
edit_interval = 5000

pub record Fold : Type 0 where
  pub fold_after : ℕ
  pub can_edit : Bool  -- whether `edit` is given
  pub recent : List String  -- keys of the `OrderedDict`, oldest first
  pub streak : ℕ
  pub armed : Bool
  pub counts : Dict String ℕ
  pub handle : Option ℕ
  pub last_edit : ℕ
  pub dirty : Bool

-- What is asked of Discord: the counter is posted, or rewritten.
pub data Effect : Type 0 where
  posted : Dict String ℕ → Effect
  edited : ℕ → Dict String ℕ → Effect

unfoldable pub new_fold : ℕ → Bool → Fold
new_fold fold_after can_edit = record {
  fold_after = fold_after;
  can_edit = can_edit;
  recent = [];
  streak = 0;
  armed = false;
  counts = [];
  handle = none;
  last_edit = 0;
  dirty = false;
}

-- `sum(self._counts.values())`
abbrev pub total : Dict String ℕ → ℕ
total [] = 0
total ((line, n) ∷ counts) = n + total counts

-- `self._counts[line] += 1`
unfoldable pub count_line : String → Dict String ℕ → Dict String ℕ
count_line line counts = elim (get line counts) [
  | some n ↦ insert line (n + 1) counts
  | none ↦ insert line 1 counts
]

-- A line that is seen again goes to the end; the oldest are dropped.
unfoldable pub remember : String → List String → List String
remember line recent = evict recent_distinct (keep (λ l. not (l == line)) recent ++ (line ∷ []))

unfoldable pub flush : ℕ → Fold → Fold × List Effect
flush now f = elim f.handle [
  | none ↦ (f, [])
  | some h ↦
      if f.dirty && f.can_edit
      then (record f { dirty = false; last_edit = now }, edited h f.counts ∷ [])
      else (f, [])
]

abbrev pub is_empty : Dict String ℕ → Bool
is_empty [] = true
is_empty (p ∷ counts) = false

unfoldable pub close : ℕ → Fold → Fold × List Effect
unfolding flush
close now f =
    let f' : Fold = record f { streak = 0 } in
    if is_empty f'.counts
    then (f', [])
    else (let (f2, effects) = flush now f' in
        (record f2 { counts = []; handle = none; dirty = false }, effects))

unfoldable pub reset : ℕ → Fold → Fold × List Effect
unfolding close
reset now f = let (f', effects) = close now f in (record f' { recent = []; armed = false }, effects)

-- A copy that is folded: the first opens the counter, the others update it.
unfoldable pub fold_copy : ℕ → Option ℕ → String → Fold → Fold × List Effect
unfolding flush count_line
fold_copy now handle line f =
    let f' : Fold = record f { armed = true; counts = count_line line f.counts } in
    if total f'.counts == 1
    then (record f' { last_edit = now; handle = handle }, posted f'.counts ∷ [])
    else (let f2 : Fold = record f' { dirty = true } in
        if leb (f2.last_edit + edit_interval) now then flush now f2 else (f2, []))

module _ (strip : String → String) where
  -- The state, whether the line was folded, and what was asked of Discord.
  unfoldable pub offer : ℕ → Option ℕ → String → Fold → Fold × Bool × List Effect
  unfolding remember close fold_copy
  offer now handle body f =
      let line = strip body in
      let f' : Fold = record f { recent = remember line f.recent } in
      if not (contains line f.recent)
      then (let (f2, effects) = close now f' in (f2, false, effects))
      else (let f2 : Fold = record f' { streak = f'.streak + 1 } in
          if not f2.armed && not (leb f2.fold_after f2.streak)
          then (f2, false, [])
          else (let (f3, effects) = fold_copy now handle line f2 in (f3, true, effects)))
