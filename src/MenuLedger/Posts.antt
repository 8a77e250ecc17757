-- ===== src/MenuLedger/Posts.antt =====
-- One post for each menu, also across a restart and while the database is away (c_lord/menu_ledger.py).
use c_lord.Prelude.{
  ℕ, ◌+◌, Bool, true, false, some, [], ◌∷◌, ◌≡◌, inl, inr, arith, ltb, if◌then◌else◌, ◌==◌, nat_key,
  string_key, pair_key, Option-cases, Bool-cases,
}
use c_lord.Prelude.Dict.{get, insert, remove, get-insert, get-insert_self, get-remove}
use c_lord.MenuLedger.Repo.{Menu, Counts, count_of, drop_thread}
use c_lord.MenuLedger.{
  Ledger, record_in_memory, record_post, posts, note_posted, exhausted, forget, clear, restart,
}

count_of-insert :
    (k j : Menu) (n : ℕ) (d : Counts)
    → count_of j (insert k n d) ≡ (if k == j then n else count_of j d)
unfolding count_of
count_of-insert k j n d = ground (arith, get-insert k j n d)

count_of-insert_self : (k : Menu) (n : ℕ) (d : Counts) → count_of k (insert k n d) ≡ n
unfolding count_of
count_of-insert_self k n d = ground (arith, get-insert_self k n d)

count_of-remove :
    (k j : Menu) (d : Counts) → count_of j (remove k d) ≡ (if k == j then 0 else count_of j d)
unfolding count_of
count_of-remove k j d = ground (arith, get-remove k j d)

count_of-drop_thread :
    (t : ℕ) (j : Menu) (d : Counts)
    → count_of j (drop_thread t d) ≡ (if j.0 == t then 0 else count_of j d)
unfolding count_of drop_thread get
count_of-drop_thread t j [] = ground arith
count_of-drop_thread t (u, x) (((v, y), n) ∷ d) =
    ground (arith, count_of-drop_thread t (u, x) d, string_key.same_iff y x)

-- Recording a post puts the count of its menu up by one, also when it was counted before, and every
-- other menu keeps its own: with the database answering, and without a database.
pub posts-record_post :
    (k j : Menu) (l : Ledger)
    → posts true j (record_post true true k l).0
      ≡ (if k == j then posts true k l + 1 else posts true j l)
unfolding posts record_post record_in_memory
posts-record_post k j l = elim (Option-cases l.repo) [
  | inl e ↦ ground (arith, count_of-insert k j (count_of k l.counts + 1) l.counts)
  | inr (rows, e) ↦ ground (arith, count_of-insert k j (count_of k rows + 1) rows)
]

counted_once :
    (up : Bool) (k : Menu) (l : Ledger) → ltb 0 (posts up k (note_posted up up up k l)) ≡ true
unfolding note_posted posts record_post record_in_memory
counted_once up k l = elim (Bool-cases (ltb 0 (posts up k l))) [
  | inl e ↦ rw e e
  | inr e ↦ rw e (elim (Option-cases l.repo) [
    | inl r ↦ ground (arith, count_of-insert_self k (count_of k l.counts + 1) l.counts)
    | inr (rows, r) ↦ ground (
      arith,
      count_of-insert_self k (count_of k l.counts + 1) l.counts,
      count_of-insert_self k (count_of k rows + 1) rows,
    )
  ])
]

exhausted_of_count :
    (up : Bool) (k : Menu) (l : Ledger) → ltb 0 (posts up k l) ≡ true → exhausted up k l ≡ true
unfolding exhausted
exhausted_of_count up k l h = ground arith

idle :
    (up : Bool) (k : Menu) (l : Ledger) → ltb 0 (posts up k l) ≡ true → note_posted up up up k l ≡ l
unfolding note_posted
idle up k l h = rw h

posts-restart :
    (k : Menu) (l : Ledger) (rows : Counts)
    → l.repo ≡ some rows
    → posts true k (restart l) ≡ posts true k l
unfolding posts restart
posts-restart k l rows e = rw e

repo-note_posted :
    (k : Menu) (l : Ledger) (rows : Counts)
    → l.repo ≡ some rows
    → (rows' : Counts) × ((note_posted true true true k l).repo ≡ some rows')
unfolding note_posted record_post
repo-note_posted k l rows e = elim (Bool-cases (ltb 0 (posts true k l))) [
  | inl c ↦ (rows, rw c e)
  | inr c ↦ (insert k (count_of k rows + 1) rows, ground arith)
]

survives :
    (up : Bool) (k : Menu) (l : Ledger) (rows : Counts)
    → l.repo ≡ some rows
    → up ≡ true
    → exhausted true k (restart (note_posted up up up k l)) ≡ true
survives true k l rows e u =
    let (rows', e') = repo-note_posted k l rows e in
    exhausted_of_count true k (restart (note_posted true true true k l))
      (rw (posts-restart k (note_posted true true true k l) rows' e') (counted_once true k l))
survives false k l rows e u = absurd (cc)

-- A menu that any route has posted is exhausted, and noting it again changes nothing, whether the
-- database answers, is away, or is not used at all; with a database that answered, it is exhausted
-- in the next process too.
pub note_posted-exhausts :
    (up : Bool) (k : Menu) (l : Ledger)
    → (exhausted up k (note_posted up up up k l) ≡ true)
      × (note_posted up up up k (note_posted up up up k l) ≡ note_posted up up up k l)
      × ((rows : Counts)
          → l.repo ≡ some rows
          → up ≡ true
          → exhausted true k (restart (note_posted up up up k l)) ≡ true)
note_posted-exhausts up k l = (
  exhausted_of_count up k (note_posted up up up k l) (counted_once up k l),
  idle up k (note_posted up up up k l) (counted_once up k l),
  λ rows e u. survives up k l rows e u,
)

-- A pane without a menu releases every menu of its thread, and no menu of another thread, while the
-- database answers and without one.
pub clear_releases :
    (t : ℕ) (k : Menu) (l : Ledger)
    → posts true k (clear true t l) ≡ (if k.0 == t then 0 else posts true k l)
unfolding posts clear
clear_releases t k l = elim (Option-cases l.repo) [
  | inl e ↦ rw e (count_of-drop_thread t k l.counts)
  | inr (rows, e) ↦ rw e (count_of-drop_thread t k rows)
]

-- A failed post gives its menu back and leaves the counts of all others, while the database answers
-- and without one.
pub forget_releases :
    (k j : Menu) (l : Ledger)
    → posts true j (forget true k l) ≡ (if k == j then 0 else posts true j l)
unfolding posts forget
forget_releases k j l = elim (Option-cases l.repo) [
  | inl e ↦ rw e (count_of-remove k j l.counts)
  | inr (rows, e) ↦ rw e (count_of-remove k j rows)
]
