-- ===== src/MenuLedger/Repo.antt =====
-- c_lord/database/menu_bridge_repo.py: the table `menu_bridges`, with a flag for each call of SQLite
-- that says whether it answers.
use c_lord.Prelude.{
  ℕ, ◌+◌, String, Bool, not, Option, none, some, if◌then◌else◌, keep, ◌==◌, nat_key, string_key,
  pair_key,
}
use c_lord.Prelude.Dict.{Dict, get, insert, remove}

-- A thread and the fingerprint of a menu.
abbrev pub Menu : Type 0
Menu = ℕ × String

-- The rows of `menu_bridges`, and the counts in memory.
abbrev pub Counts : Type 0
Counts = Dict Menu ℕ

unfoldable pub count_of : Menu → Counts → ℕ
count_of k counts = elim (get k counts) [ some n ↦ n | none ↦ 0 ]

unfoldable pub drop_thread : ℕ → Counts → Counts
drop_thread t counts = keep (λ p. not (p.0.0 == t)) counts

-- `none` is an exception.
unfoldable pub posts : Bool → Menu → Counts → Option ℕ
posts up k rows = if up then some (count_of k rows) else none

-- The row is committed before the new total is read.
unfoldable pub record_post : Bool → Bool → Menu → Counts → Counts × Option ℕ
unfolding posts
record_post writes reads k rows =
    if writes
    then (let rows' = insert k (count_of k rows + 1) rows in (rows', posts reads k rows'))
    else (rows, none)

unfoldable pub forget : Bool → Menu → Counts → Counts
forget up k rows = if up then remove k rows else rows

unfoldable pub clear : Bool → ℕ → Counts → Counts
clear up t rows = if up then drop_thread t rows else rows
