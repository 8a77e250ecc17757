-- ===== src/MenuLedger.antt =====
-- c_lord/menu_ledger.py over c_lord/database/menu_bridge_repo.py: which question menus are on screen.
-- Each call of SQLite is told whether the database answers, since the ledger goes on without it.
pub mod Repo
pub mod Posts
mod Examples
use c_lord.Prelude.{
  ℕ, zero, suc, ◌+◌, String, Bool, true, false, not, Option, none, some, List, [], ◌∷◌, leb, ltb,
  if◌then◌else◌, keep, ◌==◌, nat_key, string_key, pair_key,
}
use mathlib.Core.Option
use Repo
use Repo.{Menu, Counts, count_of, drop_thread}
use c_lord.Prelude.Dict.{Dict, get, insert, remove}

abbrev pub max_rebridges_per_menu : ℕ
max_rebridges_per_menu = 1

pub record Ledger : Type 0 where
  pub repo : Option Counts
  pub counts : Counts

unfoldable pub new_ledger : Option Counts → Ledger
new_ledger repo = record { repo = repo; counts = [] }

-- The part of `record` behind the `suppress` block.
unfoldable pub record_in_memory : Menu → Ledger → Ledger × ℕ
record_in_memory k l =
    let total = count_of k l.counts + 1 in (record l { counts = insert k total l.counts }, total)

unfoldable pub answer_or_memory : Menu → Option ℕ → Ledger → Ledger × ℕ
unfolding record_in_memory
answer_or_memory k (some total) l = (l, total)
answer_or_memory k none l = record_in_memory k l

unfoldable pub record_post : Bool → Bool → Menu → Ledger → Ledger × ℕ
unfolding answer_or_memory Repo.record_post
record_post writes reads k l = elim l.repo [
  | none ↦ record_in_memory k l
  | some rows ↦
      let (rows', answer) = Repo.record_post writes reads k rows in
      answer_or_memory k answer (record l { repo = some rows' })
]

unfoldable pub posts : Bool → Menu → Ledger → ℕ
unfolding Repo.posts
posts up k l = elim l.repo [
  | none ↦ count_of k l.counts
  | some rows ↦ elim (Repo.posts up k rows) [ some n ↦ n | none ↦ count_of k l.counts ]
]

unfoldable pub note_posted : Bool → Bool → Bool → Menu → Ledger → Ledger
unfolding posts record_post
note_posted up writes reads k l =
    if ltb 0 (posts up k l) then l else (record_post writes reads k l).0

unfoldable pub exhausted : Bool → Menu → Ledger → Bool
unfolding posts
exhausted up k l = leb max_rebridges_per_menu (posts up k l)

unfoldable pub forget : Bool → Menu → Ledger → Ledger
unfolding Repo.forget
forget up k l = record l { repo = Option.map (Repo.forget up k) l.repo; counts = remove k l.counts }

unfoldable pub clear : Bool → ℕ → Ledger → Ledger
unfolding Repo.clear
clear up t l = record l {
  repo = Option.map (Repo.clear up t) l.repo;
  counts = drop_thread t l.counts;
}

-- The next process: the rows stay, the memory does not.
unfoldable pub restart : Ledger → Ledger
unfolding new_ledger
restart l = new_ledger l.repo
