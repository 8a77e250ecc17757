-- ===== src/Resolver/Alive.antt =====
-- Which ids `live_session_ids` finds (c_lord/transcript/resolver.py).
use c_lord.Prelude.Texts.{Text, text_key}
use c_lord.Prelude.Ranked.{In}
use c_lord.Prelude.{
  true, false, ◌⊎◌, inl, inr, Bool-cases, Option, none, some, List, [], ◌∷◌, ◌≡◌, ◌↔◌, ap, sym,
  subst, ◌∙◌, refl, map, contains, contains-append, ◌==◌, if◌then◌else◌, arith,
}
use c_lord.Claims.{is_session_id}
use c_lord.Resolver.Live.{
  Process, dashed, is_absolute, derive_project_dir, is_interactive, started_ids, ids_at, ids_of,
  live_session_ids,
}
use c_lord.Resolver.Started.{
  IsGiven, IsInteractive, IsSlug, started_ids-IsGiven, IsGiven-started_ids, or_later,
  is_interactive-IsInteractive, IsInteractive-is_interactive, map-IsSlug, IsSlug-map,
}

-- The transcript directory of a working directory has this name.
abbrev pub IsProjectOf : (Text → Text) → Text → Text → Type 0
IsProjectOf realpath cwd name =
    (path : Text) × (((is_absolute cwd ≡ true) × (path ≡ cwd))
      ⊎ ((is_absolute cwd ≡ false) × (path ≡ realpath cwd)))
    × IsSlug path name

-- The id is one that an interactive claude in the project's directory was started with.
abbrev pub IsStarted : (Text → Text) → Text → Text → Process → Type 0
IsStarted realpath name id p =
    (argv : List Text) × (cwd : Text) × (p.argv ≡ some argv)
    × (p.cwd ≡ some cwd)
    × IsInteractive argv
    × IsProjectOf realpath cwd name
    × IsGiven id argv

abbrev pub IsLive : (Text → Text) → Text → Text → List Process → Type 0
IsLive realpath name id processes =
    (is_session_id id ≡ true) × ((p : Process) × In p processes × IsStarted realpath name id p)

module _ (realpath : Text → Text) (name id : Text) where
  derive_project_dir-IsProjectOf :
      (cwd : Text) → derive_project_dir realpath cwd ≡ name → IsProjectOf realpath cwd name
  unfolding derive_project_dir
  derive_project_dir-IsProjectOf cwd h =
      let path = if is_absolute cwd then cwd else realpath cwd in
      let slug : IsSlug path name = subst (IsSlug path) h (map-IsSlug path) in
      elim (Bool-cases (is_absolute cwd)) [
        | inl absolute ↦ (path, inl (absolute, rw absolute refl), slug)
        | inr relative ↦ (path, inr (relative, rw relative refl), slug)
      ]

  IsProjectOf-derive_project_dir :
      (cwd : Text) → IsProjectOf realpath cwd name → derive_project_dir realpath cwd ≡ name
  unfolding derive_project_dir
  IsProjectOf-derive_project_dir cwd (path, from, slug) = elim from [
    | inl (absolute, e) ↦ rw absolute (ap (map dashed) (sym e) ∙ IsSlug-map path name slug)
    | inr (relative, e) ↦ rw relative (ap (map dashed) (sym e) ∙ IsSlug-map path name slug)
  ]

  ids_at-found :
      (argv : List Text) (cwd : Option Text)
      → contains id (ids_at realpath name argv cwd) ≡ true
      → (c : Text) × (cwd ≡ some c)
        × (derive_project_dir realpath c ≡ name)
        × (contains id (started_ids argv) ≡ true)
  ids_at-found argv none h = absurd (ground (arith, h))
  ids_at-found argv (some cwd) h = elim (Bool-cases (derive_project_dir realpath cwd == name)) [
    | inl here ↦ (cwd, refl, (text_key.same_iff _ name).0 here, rw (ids_at, here) at h)
    | inr elsewhere ↦ absurd (ground (arith, rw (ids_at, elsewhere) at h))
  ]

  ids_of-found :
      (p : Process) (argv : Option (List Text))
      → p.argv ≡ argv
      → contains id (ids_of realpath name argv p.cwd) ≡ true
      → (is_session_id id ≡ true) × IsStarted realpath name id p
  ids_of-found p none e h = absurd (ground (arith, h))
  ids_of-found p (some argv) e h = elim (Bool-cases (is_interactive argv)) [
    | inr other ↦ absurd (ground (arith, rw (ids_of, other) at h))
    | inl live ↦
        let (c, at, here, found) = ids_at-found argv p.cwd (rw (ids_of, live) at h) in
        let (valid, given) = started_ids-IsGiven id argv found in
        let project = derive_project_dir-IsProjectOf c here in
        (valid, (argv, c, e, at, is_interactive-IsInteractive argv live, project, given))
  ]

  ids_of-listed :
      (p : Process)
      → is_session_id id ≡ true
      → IsStarted realpath name id p
      → contains id (ids_of realpath name p.argv p.cwd) ≡ true
  ids_of-listed p valid (argv, c, args, at, live, project, given) =
      let interactive = IsInteractive-is_interactive argv live in
      let same : (derive_project_dir realpath c == name) ≡ true =
        (text_key.same_iff _ name).1 (IsProjectOf-derive_project_dir c project) in
      let listed : ids_of realpath name (some argv) (some c) ≡ started_ids argv =
        rw (ids_of, interactive, ids_at, same) refl in
      let known : ids_of realpath name p.argv p.cwd ≡ started_ids argv =
        ap (λ a. ids_of realpath name a p.cwd) args
        ∙ ap (ids_of realpath name (some argv)) at
        ∙ listed in
      ap (contains id) known ∙ IsGiven-started_ids id argv valid given

  live_session_ids-IsLive :
      (processes : List Process)
      → contains id (live_session_ids realpath name processes) ≡ true
      → IsLive realpath name id processes
  unfolding live_session_ids
  live_session_ids-IsLive [] h = absurd (ground (arith, h))
  live_session_ids-IsLive (p ∷ processes) h =
      let here = ids_of realpath name p.argv p.cwd in
      elim (Bool-cases (contains id here)) [
        | inl found ↦
            let (valid, started) = ids_of-found p p.argv refl found in
            (valid, (p, inl refl, started))
        | inr gone ↦
            let split = contains-append id here (live_session_ids realpath name processes) in
            let (valid, (q, i, started)) =
              live_session_ids-IsLive processes (ground (arith, split, gone, h)) in
            (valid, (q, inr i, started))
      ]

  IsLive-live_session_ids :
      (processes : List Process) (p : Process)
      → is_session_id id ≡ true
      → In p processes
      → IsStarted realpath name id p
      → contains id (live_session_ids realpath name processes) ≡ true
  unfolding live_session_ids
  IsLive-live_session_ids [] p valid i h = absurd i
  IsLive-live_session_ids (q ∷ processes) p valid (inl e) h =
      let found = ids_of-listed q valid (subst (IsStarted realpath name id) e h) in
      contains-append id (ids_of realpath name q.argv q.cwd)
        (live_session_ids realpath name processes)
      ∙ rw found refl
  IsLive-live_session_ids (q ∷ processes) p valid (inr i) h =
      contains-append id (ids_of realpath name q.argv q.cwd)
        (live_session_ids realpath name processes)
      ∙ or_later (contains id (ids_of realpath name q.argv q.cwd)) _
          (IsLive-live_session_ids processes p valid i h)

-- An id is found exactly if it is a session id and there is a process, with arguments and a directory that
-- can be read, of which one of the first two arguments is a claude and none is `-p` or `--print`, which
-- runs in a directory with this name once each slash and dot is a dash, and to which the id was given
-- by one of the flags, as the next argument or behind an equals sign, in front of any `--`.
pub live_session_ids_iff :
    (realpath : Text → Text) (name id : Text) (processes : List Process)
    → (contains id (live_session_ids realpath name processes) ≡ true)
      ↔ IsLive realpath name id processes
live_session_ids_iff realpath name id processes = (
  live_session_ids-IsLive realpath name id processes,
  λ h. IsLive-live_session_ids realpath name id processes h.1.0 h.0 h.1.1 h.1.2,
)
