-- ===== src/RepeatFold/Counter.antt =====
-- What the counter message shows (c_lord/transcript/repeat_fold.py, `offer`, `flush`, `close`).
use c_lord.Prelude.{
  ℕ, suc, ◌+◌, String, true, false, not, ◌&&◌, Option, none, some, List, [], ◌∷◌, contains,
  if◌then◌else◌, string_key, nat_key, leb, is_some, ◌≡◌, refl, inl, inr, arith, Bool-cases,
  Option-cases,
}
use c_lord.Prelude.Dict.{Dict, get, insert}
use c_lord.RepeatFold.{
  Fold, Effect, posted, edited, new_fold, total, is_empty, count_line, remember, flush, close,
  fold_copy, offer,
}
use c_lord.RepeatFold.Copies.{Offer}

total-insert_new :
    (line : String) (counts : Dict String ℕ)
    → get line counts ≡ none
    → total (insert line 1 counts) ≡ suc (total counts)
unfolding get insert
total-insert_new line [] h = refl
total-insert_new line ((l, n) ∷ counts) h = ground (arith, total-insert_new line counts)

total-insert_more :
    (line : String) (k : ℕ) (counts : Dict String ℕ)
    → get line counts ≡ some k
    → total (insert line (k + 1) counts) ≡ suc (total counts)
unfolding get insert
total-insert_more line k [] h = ground arith
total-insert_more line k ((l, n) ∷ counts) h = ground (arith, total-insert_more line k counts)

total-count_line :
    (line : String) (counts : Dict String ℕ) → total (count_line line counts) ≡ suc (total counts)
unfolding count_line
total-count_line line counts = elim (Option-cases (get line counts)) [
  | inl new ↦ rw (total, new) (total-insert_new line counts new)
  | inr (k, more) ↦ rw (total, more) (total-insert_more line k counts more)
]

is_empty-insert :
    (line : String) (n : ℕ) (counts : Dict String ℕ) → is_empty (insert line n counts) ≡ false
unfolding insert
is_empty-insert line n [] = refl
is_empty-insert line n ((l, m) ∷ counts) = ground arith

is_empty-count_line :
    (line : String) (counts : Dict String ℕ) → is_empty (count_line line counts) ≡ false
unfolding count_line
is_empty-count_line line counts = elim (Option-cases (get line counts)) [
  | inl new ↦ rw (is_empty, new) (is_empty-insert line 1 counts)
  | inr (k, more) ↦ rw (is_empty, more) (is_empty-insert line (k + 1) counts)
]

total_of_empty : (counts : Dict String ℕ) → is_empty counts ≡ true → total counts ≡ 0
total_of_empty [] h = refl
total_of_empty (p ∷ counts) h = ground arith

-- What the counter shows after some effects.
abbrev pub shown_after : Dict String ℕ → List Effect → Dict String ℕ
shown_after shown [] = shown
shown_after shown (posted counts ∷ effects) = shown_after counts effects
shown_after shown (edited h counts ∷ effects) = shown_after counts effects

record IsKept (f : Fold) (folded : ℕ) (shown : Dict String ℕ) : Type 0 where
  sum : total f.counts ≡ folded
  current : f.dirty ≡ false → is_some f.handle ≡ true → shown ≡ f.counts
  closed : is_empty f.counts ≡ true → f.handle ≡ none
  editable : f.can_edit ≡ true
  looping : f.armed ≡ false → is_empty f.counts ≡ true

close_fields :
    (now : ℕ) (f : Fold)
    → (is_empty f.counts ≡ true → f.handle ≡ none)
    → let r = (close now f).0 in
      (is_empty r.counts ≡ true) × (r.handle ≡ none) × (r.can_edit ≡ f.can_edit)
unfolding close flush
close_fields now f h = elim (Option-cases f.handle) [
  | inl without ↦ ground (arith, without)
  | inr (message, opened) ↦ ground (arith, opened)
]

close-IsKept :
    (now : ℕ) (f : Fold) (folded : ℕ) (shown : Dict String ℕ)
    → IsKept f folded shown
    → IsKept (close now f).0 0 (shown_after shown (close now f).1)
close-IsKept now f folded shown i =
    let (empty, without, same) = close_fields now f i.closed in
    record {
      sum = total_of_empty (close now f).0.counts empty;
      current = λ d h. ground arith;
      closed = λ e. without;
      editable = ground arith;
      looping = λ a. empty;
    }

fold_copy-IsKept :
    (now : ℕ) (handle : Option ℕ) (line : String) (f : Fold) (folded : ℕ) (shown : Dict String ℕ)
    → IsKept f folded shown
    → let r = fold_copy now handle line f in IsKept r.0 (suc folded) (shown_after shown r.1)
unfolding fold_copy flush
fold_copy-IsKept now handle line f folded shown i = elim (Option-cases f.handle) [
  | inl without ↦ record {
    sum = ground (arith, without, i.sum, total-count_line line f.counts);
    current = ground (arith, without, i.editable);
    closed = ground (arith, without, is_empty-count_line line f.counts);
    editable = ground (arith, without, i.editable);
    looping = ground (arith, without);
  }
  | inr (message, opened) ↦ record {
    sum = ground (arith, opened, i.sum, total-count_line line f.counts);
    current = ground (arith, opened, i.editable);
    closed = ground (arith, opened, is_empty-count_line line f.counts);
    editable = ground (arith, opened, i.editable);
    looping = ground (arith, opened);
  }
]

settled :
    (now message : ℕ) (f : Fold) (folded : ℕ) (shown : Dict String ℕ)
    → IsKept f folded shown
    → f.handle ≡ some message
    → total (shown_after shown (close now f).1) ≡ folded
unfolding close flush
settled now message f folded shown i e = elim (Bool-cases (is_empty f.counts)) [
  | inl none_left ↦ ground (arith, i.closed none_left)
  | inr open_still ↦ elim (Bool-cases f.dirty) [
    | inl held_back ↦ ground (arith, e, open_still, held_back, i.editable, i.sum)
    | inr settled_already ↦ ground (arith, e, open_still, settled_already, i.current, i.sum)
  ]
]

-- A turn as its reader sees it: the fold, how many lines it holds, and what the counter shows.
pub record Watch : Type 0 where
  pub fold : Fold
  pub folded : ℕ
  pub shown : Dict String ℕ

abbrev pub start : ℕ → Watch
start fold_after = record { fold = new_fold fold_after true; folded = 0; shown = [] }

module _ (strip : String → String) where
  abbrev pub after_offer : Offer → Watch → Watch
  after_offer o v =
      let r = offer strip o.0 o.1 o.2 v.fold in
      record {
        fold = r.0;
        folded = if r.1 then suc v.folded else 0;
        shown = shown_after v.shown r.2;
      }

  abbrev pub watch_all : List Offer → Watch → Watch
  watch_all [] v = v
  watch_all (o ∷ offers) v = watch_all offers (after_offer o v)

  widened :
      (f : Fold) (recent : List String) (streak folded : ℕ) (shown : Dict String ℕ)
      → IsKept f folded shown
      → IsKept (record f { recent = recent; streak = streak }) folded shown
  widened f recent streak folded shown i = record {
    sum = i.sum;
    current = i.current;
    closed = i.closed;
    editable = i.editable;
    looping = i.looping;
  }

  emptied :
      (v : Watch) (recent : List String)
      → IsKept v.fold v.folded v.shown
      → v.fold.armed ≡ false
      → IsKept (record v.fold { recent = recent; streak = v.fold.streak + 1 }) 0 v.shown
  emptied v recent i idle = record {
    sum = total_of_empty v.fold.counts (i.looping idle);
    current = i.current;
    closed = i.closed;
    editable = i.editable;
    looping = i.looping;
  }

  after_offer-IsKept :
      (o : Offer) (v : Watch)
      → IsKept v.fold v.folded v.shown
      → let u = after_offer o v in IsKept u.fold u.folded u.shown
  unfolding offer
  after_offer-IsKept (now, handle, body) v i =
      let line = strip body in
      let recent = remember line v.fold.recent in
      elim (Bool-cases (contains line v.fold.recent)) [
        | inl known ↦
            let j = widened v.fold recent (v.fold.streak + 1) v.folded v.shown i in
            elim (Bool-cases
              (not v.fold.armed && not (leb v.fold.fold_after (v.fold.streak + 1)))) [
                | inl alone ↦ rw (known, alone) (emptied v recent i (ground arith))
                | inr loops ↦
                    rw (known, loops)
                      (fold_copy-IsKept now handle line
                        (record v.fold { recent = recent; streak = v.fold.streak + 1 }) v.folded
                        v.shown j)
              ]
        | inr new ↦ rw new (
            close-IsKept now (record v.fold { recent = recent }) v.folded v.shown
              (widened v.fold recent v.fold.streak v.folded v.shown i))
      ]

  watch_all-IsKept :
      (offers : List Offer) (v : Watch)
      → IsKept v.fold v.folded v.shown
      → let u = watch_all offers v in IsKept u.fold u.folded u.shown
  watch_all-IsKept [] v i = i
  watch_all-IsKept (o ∷ offers) v i =
      watch_all-IsKept offers (after_offer o v) (after_offer-IsKept o v i)

  -- Nothing folded is lost from the count, where the counter was posted and can be edited: after any
  -- lines of a turn, at any times, with edits held back by the throttle or not, closing the fold
  -- leaves the last text that was sent for the counter at exactly the number of lines folded.
  pub close-total :
      (fold_after : ℕ) (offers : List Offer) (now message : ℕ)
      → (watch_all offers (start fold_after)).fold.handle ≡ some message
      → let v = watch_all offers (start fold_after) in
        total (shown_after v.shown (close now v.fold).1) ≡ v.folded
  unfolding close flush new_fold
  close-total fold_after offers now message e =
      let v = watch_all offers (start fold_after) in
      settled now message v.fold v.folded v.shown
        (watch_all-IsKept offers (start fold_after) (record {
          sum = refl;
          current = λ d h. refl;
          closed = λ h. refl;
          editable = refl;
          looping = λ a. refl;
        }))
        e
