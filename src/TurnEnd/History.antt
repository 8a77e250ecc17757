-- ===== src/TurnEnd/History.antt =====
-- The record of a thread is what the transcript last said about it
-- (c_lord/turn_end_bus.py), whatever else was reported in between.
use c_lord.Prelude.{
  ℕ, ◌+◌, ◌≤◌, ◌<◌, Option, none, some, List, [], ◌∷◌, ◌≡◌, refl, ap, ◌∙◌, arith, nat_key, length,
  if◌then◌else◌, Bool, false, ◌||◌, Bool-cases, inl, inr, Option-cases, String, ◌==◌,
}
use c_lord.Prelude.Dict.{get, has, insert, get-insert, get-insert_self, length-insert, Dict}
use c_lord.Prelude.Fifo.{evict, evict_of_length-le, length-evict_full}
use c_lord.TurnEnd.{
  as_utc, naive, aware, TurnEndBus, ThreadTurns, Moment, blank, max_threads, ensure_record,
  record_in, on_record, new_bus, moment_of, note_prompt, mark, note_reply, prompted, ended, replied,
  size,
}

-- What a mirror reports.
pub data Report : Type 0 where
  prompt : ℕ → Option Moment → ℕ → Report
  ending : ℕ → Option Moment → ℕ → Report
  reply : ℕ → Option String → Report

abbrev pub about : Report → ℕ
about (prompt t at now) = t
about (ending t at now) = t
about (reply t api_error) = t

abbrev pub effect : Report → ThreadTurns → ThreadTurns
effect (prompt t at now) = prompted (moment_of at now)
effect (ending t at now) = ended (moment_of at now)
effect (reply t api_error) = replied api_error

abbrev pub report : Report → TurnEndBus → TurnEndBus
report (prompt t at now) = note_prompt t at now
report (ending t at now) = mark t at now
report (reply t api_error) = note_reply t api_error

abbrev pub report_all : List Report → TurnEndBus → TurnEndBus
report_all [] b = b
report_all (r ∷ rs) b = report_all rs (report r b)

-- The specification: the reports about one thread, applied in order to a blank record.
abbrev pub apply : Report → Option ThreadTurns → ThreadTurns
apply r none = effect r blank
apply r (some old) = effect r old

abbrev pub summary : ℕ → Option ThreadTurns → List Report → Option ThreadTurns
summary t o [] = o
summary t o (r ∷ rs) = summary t (if about r == t then some (apply r o) else o) rs

-- The instant a report is about: what it says, and the present if it says none; a naive moment is UTC.
abbrev pub instant_of : Option Moment → ℕ → ℕ
instant_of none now = now
instant_of (some (naive at)) now = at
instant_of (some (aware at)) now = at

-- The last prompt of the thread, the last end of a turn, and the error of the last reply since the last
-- prompt, each after what was known.
abbrev pub last_prompt : ℕ → Option ℕ → List Report → Option ℕ
last_prompt t known [] = known
last_prompt t known (prompt u at now ∷ rs) =
    last_prompt t (if u == t then some (instant_of at now) else known) rs
last_prompt t known (ending u at now ∷ rs) = last_prompt t known rs
last_prompt t known (reply u error ∷ rs) = last_prompt t known rs

abbrev pub last_end : ℕ → Option ℕ → List Report → Option ℕ
last_end t known [] = known
last_end t known (prompt u at now ∷ rs) = last_end t known rs
last_end t known (ending u at now ∷ rs) =
    last_end t (if u == t then some (instant_of at now) else known) rs
last_end t known (reply u error ∷ rs) = last_end t known rs

abbrev pub last_error : ℕ → Option String → List Report → Option String
last_error t known [] = known
last_error t known (prompt u at now ∷ rs) = last_error t (if u == t then none else known) rs
last_error t known (ending u at now ∷ rs) = last_error t known rs
last_error t known (reply u error ∷ rs) = last_error t (if u == t then error else known) rs

abbrev pub is_about : ℕ → List Report → Bool
is_about t [] = false
is_about t (r ∷ rs) = about r == t || is_about t rs

abbrev pub last_known : ℕ → ThreadTurns → List Report → ThreadTurns
last_known t r rs = record {
  prompt_at = last_prompt t r.prompt_at rs;
  ended_at = last_end t r.ended_at rs;
  api_error = last_error t r.api_error rs;
}

report-on_record : (r : Report) (b : TurnEndBus) → report r b ≡ on_record (about r) (effect r) b
unfolding note_prompt mark note_reply
report-on_record (prompt t at now) b = refl
report-on_record (ending t at now) b = refl
report-on_record (reply t api_error) b = refl

length-ensure_record_full :
    (t : ℕ) (d : Dict ℕ ThreadTurns)
    → max_threads ≤ length d
    → max_threads ≤ length (ensure_record t d)
unfolding ensure_record
length-ensure_record_full t d h = elim (Option-cases (get t d)) [
  | inr (r, e) ↦ rw e h
  | inl e ↦
      let grown : length (insert t blank d) ≡ length d + 1 =
        ground (arith, length-insert t blank d) in
      let cut : length (evict max_threads (insert t blank d)) ≡ max_threads =
        length-evict_full max_threads (insert t blank d) (omega arith) in
      rw e (omega arith)
]

size-on_record :
    (t : ℕ) (f : ThreadTurns → ThreadTurns) (b : TurnEndBus)
    → length (ensure_record t b.threads) ≤ size (on_record t f b)
unfolding on_record size
size-on_record t f b = ground (
  arith,
  length-insert t (f (record_in t (ensure_record t b.threads))) (ensure_record t b.threads),
)

size_grows : (r : Report) (b : TurnEndBus) → size (report r b) < max_threads → size b < max_threads
unfolding size
size_grows r b h =
    let s : length (ensure_record (about r) b.threads) ≤ size (on_record (about r) (effect r) b) =
      size-on_record (about r) (effect r) b in
    let e : size (report r b) ≡ size (on_record (about r) (effect r) b) =
      ap size (report-on_record r b) in
    ground (arith, length-ensure_record_full (about r) b.threads)

size-report_all :
    (rs : List Report) (b : TurnEndBus)
    → size (report_all rs b) < max_threads
    → size b < max_threads
size-report_all [] b h = h
size-report_all (r ∷ rs) b h = size_grows r b (size-report_all rs (report r b) h)

-- Below the bound making a record drops none.
ensure_record_roomy :
    (t : ℕ) (d : Dict ℕ ThreadTurns)
    → length d < max_threads
    → ensure_record t d ≡ (if has t d then d else insert t blank d)
unfolding ensure_record
ensure_record_roomy t d h = elim (Option-cases (get t d)) [
  | inr (r, e) ↦ rw e
  | inl e ↦ rw (
    e,
    evict_of_length-le max_threads (insert t blank d) (ground (arith, length-insert t blank d)),
  )
]

get-fresh_record :
    (u t : ℕ) (f : ThreadTurns → ThreadTurns) (d : Dict ℕ ThreadTurns)
    → get t (insert u (f (record_in u (insert u blank d))) (insert u blank d))
      ≡ (if u == t then some (f blank) else get t d)
get-fresh_record u t f d =
    let made = insert u blank d in
    ground (
      arith,
      get-insert_self u blank d,
      get-insert u t (f (record_in u made)) made,
      get-insert u t blank d,
    )

get-report :
    (t : ℕ) (r : Report) (b : TurnEndBus)
    → size b < max_threads
    → get t (report r b).threads
      ≡ (if about r == t then some (apply r (get t b.threads)) else get t b.threads)
unfolding on_record size
get-report t r b h =
    rw (report-on_record r b, ensure_record_roomy (about r) b.threads h, on_record)
      (elim (Option-cases (get (about r) b.threads)) [
        | inr (old, e) ↦ ground (arith, get-insert (about r) t (effect r old) b.threads)
        | inl e ↦ rw e (ground (arith, get-fresh_record (about r) t (effect r) b.threads))
      ])

blank_start : (t : ℕ) → get t new_bus.threads ≡ none
unfolding new_bus get
blank_start t = refl

get-report_all :
    (t : ℕ) (rs : List Report) (b : TurnEndBus)
    → size (report_all rs b) < max_threads
    → get t (report_all rs b).threads ≡ summary t (get t b.threads) rs
get-report_all t [] b h = refl
get-report_all t (r ∷ rs) b h =
    let roomy : size b < max_threads = size-report_all (r ∷ rs) b h in
    get-report_all t rs (report r b) h ∙ ap (λ o. summary t o rs) (get-report t r b roomy)

moment_of-instant_of : (at : Option Moment) (now : ℕ) → moment_of at now ≡ instant_of at now
unfolding as_utc
moment_of-instant_of none now = refl
moment_of-instant_of (some (naive at)) now = refl
moment_of-instant_of (some (aware at)) now = refl

-- One report, on a thread that has a record.
last_known-effect :
    (t : ℕ) (r : Report) (rs : List Report) (old : ThreadTurns)
    → last_known t (if about r == t then effect r old else old) rs ≡ last_known t old (r ∷ rs)
last_known-effect t (prompt u at now) rs old = elim (Bool-cases (u == t)) [
  | inl same ↦ rw (same, moment_of-instant_of at now) refl
  | inr other ↦ rw other refl
]
last_known-effect t (ending u at now) rs old = elim (Bool-cases (u == t)) [
  | inl same ↦ rw (same, moment_of-instant_of at now) refl
  | inr other ↦ rw other refl
]
last_known-effect t (reply u error) rs old = elim (Bool-cases (u == t)) [
  | inl same ↦ rw same refl
  | inr other ↦ rw other refl
]

summary-last_known :
    (t : ℕ) (rs : List Report) (old : ThreadTurns)
    → summary t (some old) rs ≡ some (last_known t old rs)
summary-last_known t [] old = refl
summary-last_known t (r ∷ rs) old =
    let next = if about r == t then effect r old else old in
    let kept : (if about r == t then some (effect r old) else some old) ≡ some next =
      ground arith in
    ap (λ o. summary t o rs) kept
    ∙ summary-last_known t rs next
    ∙ ap some (last_known-effect t r rs old)

summary-is_about :
    (t : ℕ) (rs : List Report)
    → summary t none rs ≡ (if is_about t rs then some (last_known t blank rs) else none)
summary-is_about t [] = refl
summary-is_about t (r ∷ rs) = elim (Bool-cases (about r == t)) [
  | inl same ↦
      let first = last_known-effect t r rs blank in
      rw (summary, is_about, same)
        (summary-last_known t rs (effect r blank) ∙ ap some (rw same at first))
  | inr other ↦
      let first = last_known-effect t r rs blank in
      rw (summary, is_about, other)
        (summary-is_about t rs
          ∙ ap (λ k. if is_about t rs then some k else none) (rw other at first))
]

-- As long as fewer than 2048 threads are on record, a thread without a report has no record, and the
-- record of any other holds the instant of its last prompt, that of its last end, and the error of its
-- last reply since the last prompt, none if that had none; no report about another thread changes it.
pub report_all-last_known :
    (t : ℕ) (rs : List Report)
    → size (report_all rs new_bus) < max_threads
    → get t (report_all rs new_bus).threads
      ≡ (if is_about t rs then some (last_known t blank rs) else none)
report_all-last_known t rs h =
    get-report_all t rs new_bus h ∙ ap (λ o. summary t o rs) (blank_start t) ∙ summary-is_about t rs
