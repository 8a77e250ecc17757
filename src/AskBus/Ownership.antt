-- ===== src/AskBus/Ownership.antt =====
-- Who owns a menu (c_lord/discord_ui/ask_bus.py): one bridge for a thread, one queue for a bridge.
use c_lord.Prelude.{
  ℕ, ◌≤◌, ◌<◌, Bool, true, false, not, none, some, List, [], ◌∷◌, ◌++◌, ◌≡◌, ◌≢◌, refl, ◌⊎◌, inl,
  inr, Bool-cases, Option-cases, length, nat_beq, arith, ltb, length-keep-le, nat_key, string_key,
  ◌==◌,
}
use c_lord.Prelude.Dict.{
  get, has, insert, remove, Dict, IsUnique, get-insert, get-remove, insert-IsUnique,
  remove-IsUnique, keep-IsUnique,
}
use c_lord.Prelude.Fifo.{evict-IsUnique, length-evict-le}
use c_lord.AskBus.{
  Bus, Answer, Reason, new_bus, register, is_active, post_answer, unregister, accepts_free_text,
  take_answer, watch_delivery, unwatch_delivery, note_delivery, note_closed, closed_reason,
  drop_stale, is_stale, max_close_notes, Step, Reach, registers, unregisters, posts, takes, watches,
  unwatches, reports, notes, reads, fresh, after,
}

-- What holds of the bus at every moment.
pub record IsConsistent (b : Bus) : Type 0 where
  pub allocated : (t q : ℕ) → get t b.waiters ≡ some q → q < b.next
  pub exclusive : (t u q : ℕ) → get t b.waiters ≡ some q → get u b.waiters ≡ some q → t ≡ u
  pub flagged : (t : ℕ) → has t b.free_text ≡ has t b.waiters
  pub bounded : length b.closed ≤ max_close_notes
  pub distinct : IsUnique b.closed

waiter_ne :
    (b : Bus) (u q : ℕ) → IsConsistent b → get u b.waiters ≡ some q → nat_beq b.next q ≡ false
waiter_ne b u q c h = let lt : q < b.next = c.allocated u q h in ground arith

-- An attempt to register is refused without any change while the thread has an owner; otherwise it
-- makes the thread active with an empty queue and the given free-text flag, and leaves every other
-- thread's owner and queue.
pub register_exclusive :
    (t : ℕ) (allow : Bool) (b : Bus)
    → IsConsistent b
    → ((is_active t b ≡ true) × (register t allow b ≡ (b, none)))
      ⊎ ((is_active t b ≡ false)
          × ((register t allow b).1 ≡ some b.next)
          × (get t (register t allow b).0.waiters ≡ some b.next)
          × ((register t allow b).0.queues b.next ≡ [])
          × (accepts_free_text t (register t allow b).0 ≡ allow)
          × ((u q : ℕ)
              → t ≢ u
              → get u b.waiters ≡ some q
              → (get u (register t allow b).0.waiters ≡ some q)
                × ((register t allow b).0.queues q ≡ b.queues q)))
unfolding register is_active accepts_free_text
register_exclusive t allow b c = elim (Option-cases (get t b.waiters)) [
  | inr (q, e) ↦ inl (rw e, rw e)
  | inl e ↦ inr (
    rw e,
    rw e,
    ground (arith, get-insert t t b.next b.waiters),
    ground arith,
    ground (arith, get-insert t t b.next b.waiters, get-insert t t allow b.free_text),
    λ u q ne o.
        (ground (arith, get-insert t u b.next b.waiters), ground (arith, waiter_ne b u q c o)),
  )
]

-- An answer is appended to the queue of the thread's owner and reported as delivered exactly when
-- there is an owner; the queue of every other thread's owner stays as it was.
pub post_answer-delivers :
    (t : ℕ) (answers : List Answer) (b : Bus)
    → IsConsistent b
    → ((post_answer t answers b).1 ≡ is_active t b)
      × ((q : ℕ)
          → get t b.waiters ≡ some q
          → (post_answer t answers b).0.queues q ≡ b.queues q ++ (answers ∷ []))
      × ((u q : ℕ)
          → t ≢ u
          → get u b.waiters ≡ some q
          → (post_answer t answers b).0.queues q ≡ b.queues q)
unfolding post_answer is_active
post_answer-delivers t answers b c = (
  ground arith,
  λ q h. ground arith,
  λ u q ne h. elim (Option-cases (get t b.waiters)) [
    | inl e ↦ ground arith
    | inr (r, e) ↦ ground (arith, c.exclusive t u q)
  ],
)

-- `unregister` frees the thread, and only that thread: nobody waits there, no sentence is taken as
-- its answer and a new bridge is accepted, while every other thread keeps its owner.
pub unregister_frees :
    (t : ℕ) (allow : Bool) (b : Bus)
    → (is_active t (unregister t b) ≡ false)
      × (accepts_free_text t (unregister t b) ≡ false)
      × ((register t allow (unregister t b)).1 ≡ some b.next)
      × ((u : ℕ) → t ≢ u → get u (unregister t b).waiters ≡ get u b.waiters)
unfolding unregister is_active accepts_free_text register
unregister_frees t allow b = (
  ground (arith, get-remove t t b.waiters),
  ground (arith, get-remove t t b.free_text),
  ground (arith, get-remove t t b.waiters),
  λ u ne. ground (arith, get-remove t u b.waiters),
)

register-IsConsistent :
    (t : ℕ) (allow : Bool) (b : Bus) → IsConsistent b → IsConsistent (register t allow b).0
unfolding register
register-IsConsistent t allow b c = elim (Option-cases (get t b.waiters)) [
  | inr (q, e) ↦ rw e c
  | inl e ↦ rw e (record {
    allocated = λ u q h. ground (arith, get-insert t u b.next b.waiters, c.allocated u q);
    exclusive = λ u v q h k. ground (
      arith,
      get-insert t u b.next b.waiters,
      get-insert t v b.next b.waiters,
      c.exclusive u v q,
      c.allocated u q,
      c.allocated v q,
    );
    flagged = λ u.
        ground
          (arith, get-insert t u b.next b.waiters, get-insert t u allow b.free_text, c.flagged u);
    bounded = c.bounded;
    distinct = c.distinct;
  })
]

unregister-IsConsistent : (t : ℕ) (b : Bus) → IsConsistent b → IsConsistent (unregister t b)
unfolding unregister
unregister-IsConsistent t b c = record {
  allocated = λ u q h. ground (arith, get-remove t u b.waiters, c.allocated u q);
  exclusive = λ u v q h k.
      ground (arith, get-remove t u b.waiters, get-remove t v b.waiters, c.exclusive u v q);
  flagged = λ u. ground (arith, get-remove t u b.waiters, get-remove t u b.free_text, c.flagged u);
  bounded = c.bounded;
  distinct = c.distinct;
}

pub drop_stale-IsUnique :
    (now : ℕ) (d : Dict ℕ (ℕ × Reason)) → IsUnique d → IsUnique (drop_stale now d)
unfolding drop_stale
drop_stale-IsUnique now d u = elim (Bool-cases (ltb max_close_notes (length d))) [
  | inl e ↦ rw e (keep-IsUnique (λ p. not (is_stale now p.1.0)) d u)
  | inr e ↦ rw e u
]

note_closed-IsConsistent :
    (t : ℕ) (reason : Reason) (now : ℕ) (b : Bus)
    → IsConsistent b
    → IsConsistent (note_closed t reason now b)
unfolding note_closed
note_closed-IsConsistent t reason now b c =
    let d : Dict ℕ (ℕ × Reason) = drop_stale now (insert t (now, reason) b.closed) in
    record {
      allocated = c.allocated;
      exclusive = c.exclusive;
      flagged = c.flagged;
      bounded = length-evict-le max_close_notes d;
      distinct =
          evict-IsUnique max_close_notes d
            (drop_stale-IsUnique now _ (insert-IsUnique t (now, reason) b.closed c.distinct));
    }

closed_reason_cases :
    (t now : ℕ) (b : Bus)
    → ((closed_reason t now b).0 ≡ b)
      ⊎ ((closed_reason t now b).0 ≡ record b { closed = remove t b.closed })
unfolding closed_reason
closed_reason_cases t now b = ground arith

expire-IsConsistent :
    (t : ℕ) (b : Bus) → IsConsistent b → IsConsistent (record b { closed = remove t b.closed })
unfolding remove
expire-IsConsistent t b c = record {
  allocated = c.allocated;
  exclusive = c.exclusive;
  flagged = c.flagged;
  bounded = omega (arith, length-keep-le {0} (λ p. not (p.0 == t)) b.closed, c.bounded);
  distinct = remove-IsUnique t b.closed c.distinct;
}

closed_reason-IsConsistent :
    (t now : ℕ) (b : Bus) → IsConsistent b → IsConsistent (closed_reason t now b).0
closed_reason-IsConsistent t now b c = elim (closed_reason_cases t now b) [
  | inl e ↦ rw e c
  | inr e ↦ rw e (expire-IsConsistent t b c)
]

-- A step that leaves owners and notes as they were keeps the invariant.
frame-IsConsistent :
    (b c : Bus)
    → IsConsistent b
    → c.waiters ≡ b.waiters
    → c.free_text ≡ b.free_text
    → c.closed ≡ b.closed
    → b.next ≤ c.next
    → IsConsistent c
frame-IsConsistent b c v w f k n = record {
  allocated = λ t q h. let lt : q < b.next = v.allocated t q (rw (← w) h) in omega arith;
  exclusive = λ t u q h i. v.exclusive t u q (rw (← w) h) (rw (← w) i);
  flagged = λ t. rw (w, f) (v.flagged t);
  bounded = rw k v.bounded;
  distinct = rw k v.distinct;
}

Step-IsConsistent : {b c : Bus} → Step b c → IsConsistent b → IsConsistent c
unfolding post_answer take_answer watch_delivery unwatch_delivery note_delivery
Step-IsConsistent (registers t allow) v = register-IsConsistent t allow _ v
Step-IsConsistent (unregisters t) v = unregister-IsConsistent t _ v
Step-IsConsistent {b} (posts t answers) v =
    frame-IsConsistent b (post_answer t answers b).0 v (ground arith) (ground arith) (ground arith)
      (ground arith)
Step-IsConsistent {b} (takes q) v =
    frame-IsConsistent b (take_answer q b).0 v (ground arith) (ground arith) (ground arith)
      (ground arith)
Step-IsConsistent {b} (watches t) v =
    frame-IsConsistent b (watch_delivery t b).0 v refl refl refl (omega arith)
Step-IsConsistent {b} (unwatches t) v =
    frame-IsConsistent b (unwatch_delivery t b) v refl refl refl (omega arith)
Step-IsConsistent {b} (reports t verdict) v =
    frame-IsConsistent b (note_delivery t verdict b) v (ground arith) (ground arith) (ground arith)
      (ground arith)
Step-IsConsistent (notes t reason now) v = note_closed-IsConsistent t reason now _ v
Step-IsConsistent (reads t now) v = closed_reason-IsConsistent t now _ v

-- After any interleaving of the bus's operations, no two threads share a queue, a free-text flag
-- stands exactly where a bridge waits, and at most 512 closure notes are kept, one for a thread.
pub Reach-IsConsistent : {b : Bus} → Reach b → IsConsistent b
unfolding new_bus get
Reach-IsConsistent fresh = record {
  allocated = λ t q h. absurd (ground arith);
  exclusive = λ t u q h k. absurd (ground arith);
  flagged = λ t. refl;
  bounded = omega arith;
  distinct = tt;
}
Reach-IsConsistent (after r s) = Step-IsConsistent s (Reach-IsConsistent r)
