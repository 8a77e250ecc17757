-- ===== src/Tail/Fresh.antt =====
-- Uuids that come only once (c_lord/transcript/tail.py).
use c_lord.Prelude.{
  String, true, false, none, some, List, [], ◌∷◌, ◌++◌, contains, contains-append, nat_key,
  string_key, ◌≡◌, refl, ap, inl, inr, arith, Option-cases,
}
use c_lord.Tail.Lines.{append_assoc, append_nil}
use c_lord.Tail.Records.{Event, uuid_of}

-- The uuids of some events, in order.
abbrev pub uuids : List Event → List String
uuids [] = []
uuids (e ∷ events) = elim (uuid_of e) [ none ↦ uuids events | some u ↦ u ∷ uuids events ]

-- None is one of those seen before, or an earlier one.
abbrev pub IsFresh : List String → List String → Type 0
IsFresh seen [] = Unit
IsFresh seen (u ∷ us) = (contains u seen ≡ false) × IsFresh (seen ++ (u ∷ [])) us

abbrev pub IsWithin : List String → List String → Type 0
IsWithin a b = (u : String) → contains u a ≡ true → contains u b ≡ true

pub IsWithin-append : (a b c : List String) → IsWithin a b → IsWithin (a ++ c) (b ++ c)
IsWithin-append a b c h u = ground (arith, contains-append u a c, contains-append u b c, h u)

pub IsFresh-weaken : (a b us : List String) → IsWithin a b → IsFresh b us → IsFresh a us
IsFresh-weaken a b [] h f = tt
IsFresh-weaken a b (u ∷ us) h f = (
  ground (arith, h u, f.0),
  IsFresh-weaken (a ++ (u ∷ [])) (b ++ (u ∷ [])) us (IsWithin-append a b (u ∷ []) h) f.1,
)

pub IsFresh-append :
    (seen us more : List String)
    → IsFresh seen us
    → IsFresh (seen ++ us) more
    → IsFresh seen (us ++ more)
IsFresh-append seen [] more f g = rw (append_nil seen) at g
IsFresh-append seen (u ∷ us) more f g =
    (f.0, IsFresh-append (seen ++ (u ∷ [])) us more f.1 (rw (← append_assoc seen (u ∷ []) us) at g))

pub uuids-append : (a b : List Event) → uuids (a ++ b) ≡ uuids a ++ uuids b
uuids-append [] b = refl
uuids-append (e ∷ a) b = elim (Option-cases (uuid_of e)) [
  | inl bare ↦ rw (uuids, bare) (uuids-append a b)
  | inr (u, named) ↦ rw (uuids, named) (ap (u ∷◌) (uuids-append a b))
]

-- What one step does to the uuids that were seen.
pub record IsOnce (seen seen' : List String) (events : List Event) : Type 0 where
  pub fresh : IsFresh seen (uuids events)
  pub kept : IsWithin (seen ++ uuids events) seen'

pub IsOnce-compose :
    (a b c : List String) (events more : List Event)
    → IsOnce a b events
    → IsOnce b c more
    → IsOnce a c (events ++ more)
IsOnce-compose a b c events more i j = record {
  fresh = rw (uuids-append events more) (
      IsFresh-append a (uuids events) (uuids more) i.fresh
        (IsFresh-weaken (a ++ uuids events) b (uuids more) i.kept j.fresh));
  kept =
      rw (uuids-append events more, ← append_assoc a (uuids events) (uuids more))
        (λ u h. j.kept u (IsWithin-append (a ++ uuids events) b (uuids more) i.kept u h));
}

-- A step without events that forgets no uuid.
pub IsOnce-quiet : (a b : List String) → IsWithin a b → IsOnce a b []
IsOnce-quiet a b h = record { fresh = tt; kept = rw (append_nil a) h }

pub bare-IsOnce : (seen : List String) (e : Event) → uuid_of e ≡ none → IsOnce seen seen (e ∷ [])
bare-IsOnce seen e bare = record {
  fresh = rw (uuids, bare) tt;
  kept = rw (uuids, bare, append_nil seen) (λ u h. h);
}

pub named-IsOnce :
    (seen : List String) (e : Event) (u : String)
    → uuid_of e ≡ some u
    → contains u seen ≡ false
    → IsOnce seen (seen ++ (u ∷ [])) (e ∷ [])
named-IsOnce seen e u named new = record {
  fresh = rw (uuids, named) (new, tt);
  kept = rw (uuids, named) (λ u h. h);
}
