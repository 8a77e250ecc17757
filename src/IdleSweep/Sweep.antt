-- ===== src/IdleSweep/Sweep.antt =====
-- c_lord/idle_sweep.py, `IdleSweepLoop.tick`: one sweep over the workspaces that are due. A subclass is
-- a record of its hooks; what Discord and `_act` answer for each thread in one tick is a `Host`. The
-- threads that were acted on, the last one first, are kept beside the counts.
use c_lord.Prelude.{
  ℕ, ◌+◌, String, Bool, true, false, not, ◌&&◌, ◌||◌, Option, none, some, List, [], ◌∷◌, ◌++◌,
  contains, keep, if◌then◌else◌, nat_key, leb,
}
use c_lord.Prelude.Dict.{Dict, get, insert}
use c_lord.Sessions.{SessionRecord}
use c_lord.IdleSweep.{select_idle_workspaces}

pub data Fetch : Type 0 where
  cached fetched not_found forbidden failed : Fetch

pub data Act : Type 0 where
  changed unchanged raised : Act

pub record Host : Type 0 where
  pub fetch : ℕ → Fetch
  pub act : ℕ → Act

-- The methods that a subclass may override. `tick_exhausted` is asked with the threads acted on in this
-- tick; an override that counts something else, as the slow answers in idle_sleep.py, is not modelled.
pub record Hooks : Type 0 where
  pub needs_action : SessionRecord → Bool
  pub spent_budget : ℕ → Bool → Bool
  pub tick_exhausted : List ℕ → Bool
  pub order : List ℕ → List ℕ

abbrev pub base_hooks : Hooks
base_hooks = record {
  needs_action = λ row. true;
  spent_budget = λ t changed_it. changed_it;
  tick_exhausted = λ tried. false;
  order = λ due. due;
}

pub record Tick : Type 0 where
  pub unresolvable : List ℕ
  pub acted : ℕ
  pub spent : ℕ
  pub tried : List ℕ
  pub visited : List ℕ

abbrev pub write_off : ℕ → List ℕ → List ℕ
write_off t gone = if contains t gone then gone else gone ++ (t ∷ [])

-- The thread, if it can be reached, and the threads that are written off.
unfoldable pub resolve_thread : Fetch → ℕ → List ℕ → Bool × List ℕ
resolve_thread cached t gone = (true, gone)
resolve_thread fetched t gone = (true, gone)
resolve_thread not_found t gone = (false, write_off t gone)
resolve_thread forbidden t gone = (false, write_off t gone)
resolve_thread failed t gone = (false, gone)

-- `{rec.thread_id: rec for rec in records}`
unfoldable pub rows_by_id : List SessionRecord → Dict ℕ SessionRecord → Dict ℕ SessionRecord
rows_by_id [] rows = rows
rows_by_id (row ∷ records) rows = rows_by_id records (insert row.thread_id row rows)

unfoldable pub wanted : Hooks → List SessionRecord → List ℕ → ℕ → Bool
wanted hooks records gone t =
    not (contains t gone)
    && elim (get t (rows_by_id records [])) [ some row ↦ hooks.needs_action row | none ↦ false ]

module _ (hooks : Hooks) (host : Host) where
  -- `_act`, `_mark_visited` and the counts.
  unfoldable pub settle : Act → ℕ → Tick → Tick
  settle raised t s = s
  settle changed t s = record s {
    visited = t ∷ s.visited;
    acted = s.acted + 1;
    spent = if hooks.spent_budget t true then s.spent + 1 else s.spent;
  }
  settle unchanged t s = record s {
    visited = t ∷ s.visited;
    spent = if hooks.spent_budget t false then s.spent + 1 else s.spent;
  }

  unfoldable pub visit : ℕ → Tick → Tick
  visit t s =
      let (reached, gone) = resolve_thread (host.fetch t) t s.unresolvable in
      let s' : Tick = record s { unresolvable = gone } in
      if reached then settle (host.act t) t (record s' { tried = t ∷ s.tried }) else s'

  unfoldable pub visit_all : ℕ → List ℕ → Tick → Tick
  visit_all max_per_tick [] s = s
  visit_all max_per_tick (t ∷ due) s =
      let rest = visit_all max_per_tick due (visit t s) in
      if leb max_per_tick s.spent || hooks.tick_exhausted s.tried then s else rest

  -- One tick; the number of workspaces that changed is `acted`.
  unfoldable pub tick :
      (String → String → Option ℕ) → ℕ → ℕ → ℕ → List ℕ → List SessionRecord → List ℕ → Tick
  tick strptime max_per_tick now threshold in_flight records gone =
      let s : Tick = record {
        unresolvable = gone;
        acted = 0;
        spent = 0;
        tried = [];
        visited = [];
      } in
      let selected = select_idle_workspaces strptime records now threshold in_flight in
      let due = keep (wanted hooks records gone) selected in
      let done = visit_all max_per_tick (hooks.order due) s in if leb threshold 0 then s else done
