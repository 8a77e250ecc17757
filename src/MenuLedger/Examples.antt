-- ===== src/MenuLedger/Examples.antt =====
-- Runs of the ledger, and its theorems at them.
use c_lord.Prelude.{true, false, some, [], ◌≡◌, refl, nat_key, string_key, pair_key}
use c_lord.Prelude.Dict.{get, insert, remove}
use c_lord.MenuLedger.Repo.{count_of, drop_thread}
use c_lord.MenuLedger.{
  Ledger, new_ledger, record_post, posts, note_posted, exhausted, forget, clear, restart,
}
use c_lord.MenuLedger.Posts.{posts-record_post}

program : Unit {0}
unfolding new_ledger record_post posts note_posted exhausted forget clear restart count_of
    drop_thread get insert remove
program = tt

-- One menu stands in thread 7.
abbrev posted : Ledger
posted = note_posted true true true (7, "f1") (new_ledger (some []))

posted_before_restart : exhausted true (7, "f1") (restart posted) ≡ true
unfolding program
posted_before_restart = refl

-- A row is written, the total cannot be read: the post is counted in both places.
counted_twice : (record_post true false (7, "f1") (new_ledger (some []))).1 ≡ 1
unfolding program
counted_twice = refl

posts-record_post_example :
    posts true (7, "f2") (record_post true true (7, "f1") posted).0 ≡ posts true (7, "f2") posted
posts-record_post_example = posts-record_post (7, "f1") (7, "f2") posted
