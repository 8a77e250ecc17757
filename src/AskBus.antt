-- ===== src/AskBus.antt =====
-- c_lord/discord_ui/ask_bus.py: `AskAnswerBus`, which routes an answer to the bridge that waits for
-- it. The queue objects stand in a store, so that who holds which queue is visible; the monotonic
-- clock is an argument, in milliseconds.
pub mod Ownership
pub mod Notes
mod Examples
use c_lord.Prelude.{
  ℕ, zero, suc, ◌+◌, ◌*◌, String, Bool, true, false, not, ◌&&◌, Option, none, some, List, [], ◌∷◌,
  ◌++◌, ltb, leb, if◌then◌else◌, update, keep, length, nat_key,
}
use c_lord.Prelude.Dict.{Dict, get, has, insert, remove}
use c_lord.Prelude.Fifo.{evict}

-- CLOSE_*: why a menu stopped accepting answers.
pub data Reason : Type 0 where
  answered terminal timeout interrupted stopped : Reason

-- DELIVERY_*: what became of an answer.
pub data Verdict : Type 0 where
  delivered undelivered not_answered unconfirmed : Verdict

-- An answer is an option with its index (`ChosenOption`) or a typed sentence.
pub data Answer : Type 0 where
  chosen : String → ℕ → Answer
  typed : String → Answer

abbrev pub close_note_ttl : ℕ
close_note_ttl = 86400000

abbrev pub max_close_notes : ℕ
max_close_notes = 512

pub record Bus : Type 0 where
  pub waiters : Dict ℕ ℕ
  pub closed : Dict ℕ (ℕ × Reason)
  pub free_text : Dict ℕ Bool
  pub delivery : Dict ℕ ℕ
  pub queues : ℕ → List (List Answer)
  pub verdicts : ℕ → List Verdict
  pub next : ℕ  -- identity of the next `asyncio.Queue()`

unfoldable pub new_bus : Bus
new_bus = record {
  waiters = [];
  closed = [];
  free_text = [];
  delivery = [];
  queues = λ _. [];
  verdicts = λ _. [];
  next = 0;
}

unfoldable pub register : ℕ → Bool → Bus → Bus × Option ℕ
register t allow_free_text b = if has t b.waiters then (b, none) else (
  record b {
    waiters = insert t b.next b.waiters;
    free_text = insert t allow_free_text b.free_text;
    queues = update b.queues b.next [];
    next = suc b.next;
  },
  some b.next,
)

unfoldable pub is_active : ℕ → Bus → Bool
is_active t b = has t b.waiters

unfoldable pub post_answer : ℕ → List Answer → Bus → Bus × Bool
post_answer t answers b = elim (get t b.waiters) [
  | some q ↦ (record b { queues = update b.queues q (b.queues q ++ (answers ∷ [])) }, true)
  | none ↦ (b, false)
]

unfoldable pub accepts_free_text : ℕ → Bus → Bool
accepts_free_text t b = elim (get t b.free_text) [
  | some allowed ↦ allowed && has t b.waiters
  | none ↦ false
]

unfoldable pub watch_delivery : ℕ → Bus → Bus × ℕ
watch_delivery t b = (
  record b {
    delivery = insert t b.next b.delivery;
    verdicts = update b.verdicts b.next [];
    next = suc b.next;
  },
  b.next,
)

unfoldable pub note_delivery : ℕ → Verdict → Bus → Bus
note_delivery t verdict b = elim (get t b.delivery) [
  | none ↦ b
  | some q ↦ record b { verdicts = update b.verdicts q (b.verdicts q ++ (verdict ∷ [])) }
]

unfoldable pub unwatch_delivery : ℕ → Bus → Bus
unwatch_delivery t b = record b { delivery = remove t b.delivery }

unfoldable pub unregister : ℕ → Bus → Bus
unregister t b = record b { waiters = remove t b.waiters; free_text = remove t b.free_text }

-- `now - noted_at >= _CLOSE_NOTE_TTL`
abbrev pub is_stale : ℕ → ℕ → Bool
is_stale now noted_at = leb (noted_at + close_note_ttl) now

-- The `if len(...) > _MAX_CLOSE_NOTES` block: stale notes go first.
unfoldable pub drop_stale : ℕ → Dict ℕ (ℕ × Reason) → Dict ℕ (ℕ × Reason)
drop_stale now closed =
    if ltb max_close_notes (length closed)
    then keep (λ p. not (is_stale now p.1.0)) closed
    else closed

unfoldable pub note_closed : ℕ → Reason → ℕ → Bus → Bus
note_closed t reason now b = record b {
  closed = evict max_close_notes (drop_stale now (insert t (now, reason) b.closed));
}

unfoldable pub closed_reason : ℕ → ℕ → Bus → Bus × Option Reason
closed_reason t now b = elim (get t b.closed) [
  | none ↦ (b, none)
  | some (noted_at, reason) ↦
      if is_stale now noted_at
      then (record b { closed = remove t b.closed }, none)
      else (b, some reason)
]

-- `queue.get()` of the bridge that waits: the oldest answer, if there is one.
unfoldable pub take_answer : ℕ → Bus → Bus × Option (List Answer)
take_answer q b = elim (b.queues q) [
  | [] ↦ (b, none)
  | answers ∷ rest ↦ (record b { queues = update b.queues q rest }, some answers)
]

-- What any bridge, view, watchdog or mirror may do to the shared bus, in any order.
pub data Step : Bus → Bus → Type 0 where
  registers : {b : Bus} (t : ℕ) (allow : Bool) → Step b (register t allow b).0
  unregisters : {b : Bus} (t : ℕ) → Step b (unregister t b)
  posts : {b : Bus} (t : ℕ) (answers : List Answer) → Step b (post_answer t answers b).0
  takes : {b : Bus} (q : ℕ) → Step b (take_answer q b).0
  watches : {b : Bus} (t : ℕ) → Step b (watch_delivery t b).0
  unwatches : {b : Bus} (t : ℕ) → Step b (unwatch_delivery t b)
  reports : {b : Bus} (t : ℕ) (verdict : Verdict) → Step b (note_delivery t verdict b)
  notes : {b : Bus} (t : ℕ) (reason : Reason) (now : ℕ) → Step b (note_closed t reason now b)
  reads : {b : Bus} (t now : ℕ) → Step b (closed_reason t now b).0

pub data Reach : Bus → Type 0 where
  fresh : Reach new_bus
  after : {b c : Bus} → Reach b → Step b c → Reach c
