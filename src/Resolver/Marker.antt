-- ===== src/Resolver/Marker.antt =====
-- The mark of a transcript that c-lord drives (c_lord/transcript/resolver.py, `is_clord_driven_jsonl`).
use c_lord.Prelude.Texts.{Text, last_of, is_part}
use c_lord.Prelude.{
  ℕ, zero, suc, ◌*◌, Bool, true, false, not, ◌&&◌, ◌||◌, Option, none, some, [], ◌∷◌, ◌++◌, take,
  length, nat_key, ◌==◌, if◌then◌else◌,
}
use c_lord.Claims.{newline}
use c_lord.Claims.Successor.{Transcript, content_key, after_prefix, starts_with, blanks_then}

abbrev pub clord_input_marker : Text
clord_input_marker = 226 ∷ 128 ∷ 139 ∷ []

abbrev pub marker_lookback : ℕ
marker_lookback = 64

abbrev pub probe_chunk_bytes : ℕ
probe_chunk_bytes = 1024 * 1024

abbrev pub probe_overlap : ℕ
probe_overlap = 67

-- `$`: the end, or a newline before it.
abbrev pub is_end : Option Text → Bool
is_end none = false
is_end (some []) = true
is_end (some (c ∷ [])) = c == newline
is_end (some (c ∷ d ∷ rest)) = false

-- The context pattern at the start of the text.
abbrev pub context_here : Text → Bool
context_here text =
    is_end (blanks_then (34 ∷ []) (blanks_then (58 ∷ []) (after_prefix content_key text)))

unfoldable pub has_context : Text → Bool
has_context [] = context_here []
has_context (c ∷ text) = context_here (c ∷ text) || has_context text

-- The search from a position on, `before` being the bytes in front of it.
abbrev pub marker_from : Text → Text → Bool
marker_from before [] = false
marker_from before (c ∷ rest) =
    (starts_with clord_input_marker (c ∷ rest) && has_context (last_of marker_lookback before))
    || marker_from (before ++ (c ∷ [])) rest

unfoldable pub buffer_has_marker : Text → Bool
buffer_has_marker buffer = marker_from [] buffer

abbrev pub drop : ℕ → Text → Text
drop zero text = text
drop (suc n) [] = []
drop (suc n) (c ∷ text) = drop n text

-- The loop over the slices, with fuel; `probe_chunk` bytes are read at a time.
unfoldable pub probe_slices : ℕ → ℕ → Text → Text → Bool
probe_slices probe_chunk zero carry raw = false
probe_slices probe_chunk (suc fuel) carry raw =
    let chunk = take probe_chunk raw in
    let rest = probe_slices probe_chunk fuel (last_of probe_overlap chunk) (drop probe_chunk raw) in
    if not (is_part chunk)
    then false
    else (if buffer_has_marker (carry ++ chunk) then true else rest)

unfoldable pub is_clord_driven_jsonl : Transcript → Bool
is_clord_driven_jsonl path = elim (path.bytes) [
  | none ↦ false
  | some raw ↦ probe_slices probe_chunk_bytes (suc (length raw)) [] raw
]
