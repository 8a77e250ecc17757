-- ===== src/Lib.antt =====
-- c-lord keeps one Claude Code session, in a tmux window, for each Discord thread. This library
-- models the parts of the Python package c_lord that keep state in memory and decide: who may
-- give commands, which thread gets an answer, whether a turn is running, which line is written or
-- folded, and which workspace is put to sleep. Discord, tmux, SQLite, the environment and the
-- clocks enter as arguments, with what they answer written as data: a value, a refusal, no
-- answer.
--
-- - AskBus models c_lord/discord_ui/ask_bus.py: `AskAnswerBus`, through which a button press, a
--   typed message or an API call answers the question a thread has open. Its invariant stands in
--   AskBus/Ownership, its notes on closed questions in AskBus/Notes. Its clock counts
--   milliseconds.
-- - TurnEnd models c_lord/turn_end_bus.py: `TurnEndBus`, what the hooks and the transcript say
--   about the turn of each thread. A datetime is naive or aware and counts microseconds; the
--   coordination between mirror and attach is its grace after a turn.
-- - LogSampler models c_lord/log_sampler.py: one line per key and window. The sleep loops and the
--   bridge write their repeated lines through it.
-- - MenuLedger models c_lord/menu_ledger.py with the table below it,
--   c_lord/database/menu_bridge_repo.py (MenuLedger/Repo): how often a menu was posted again,
--   across a restart. Each database call is given whether it succeeds.
-- - Authorization models c_lord/discord_ui/authorization.py: who may press a control.
--   Authorization/Rule has its decision table, Authorization/Owners the start of the process.
-- - CommandGate models c_lord/command_gate.py: which message is a command, and whether this
--   instance owns the thread.
-- - Sessions has the rows of the sessions table (c_lord/database/repository.py) and the reading
--   of their time stamps (c_lord/idle_sweep.py, `parse_timestamp`). `strptime` is a parameter.
-- - IdleSweep models c_lord/idle_sweep.py: `select_idle_workspaces` (IdleSweep/Choice) and
--   `IdleSweepLoop.tick` with the hooks of its subclasses as a record (IdleSweep/Sweep,
--   IdleSweep/Walk, IdleSweep/Fairness). A cutoff before the clock's zero is zero.
-- - ResidentCap models c_lord/resident_cap.py. ResidentCap/Memory reads memory and sets the
--   limit, ResidentCap/Select is `select_lru_victims`, ResidentCap/Sleep puts one workspace to
--   sleep, ResidentCap/Cap is the whole of `_enforce_cap` with its deferred threads,
--   ResidentCap/Brake the emergency brake and the tick. What one pass does to workspaces is a
--   list of actions.
-- - RepeatFold models c_lord/transcript/repeat_fold.py: `RepeatFold`, which turns the copies of a
--   looping line into one counter message. RepeatFold/Copies counts what still reaches the
--   thread, RepeatFold/Counter what the counter shows.
-- - Tail models c_lord/transcript/tail.py: the state of a follow loop, its start and its polls.
--   What the resolver, `stat` and `open` answer is a `Disk` per poll. Tail/Records and Tail/Lines
--   read records and lines, Tail/Seed and Tail/Ends are about the start, Tail/Fresh, Tail/Once
--   and Tail/Delivery about what is delivered; Tail/Delivery/Place, Open, File and Polls carry
--   the place in the file through one poll.
-- - TurnActivity models c_lord/turn_activity.py: `TurnActivity`, which routes what the mirror
--   sees to the lamp of the live turn and knows which tool calls are out (TurnActivity/Calls).
-- - Lamp models c_lord/discord_ui/status.py: `StatusManager`. The reactions on the message and
--   the outcomes of the calls of Discord are part of the state; an operation returns whether its
--   task was cancelled in it. Lamp/Truth and Lamp/Paint say what the manager knows of the
--   message, Lamp/Quiet is about calls that succeed, Lamp/Last about a turn's last paint,
--   Lamp/Stall about the monitor.
-- - ReplyChunker models c_lord/discord_ui/reply_chunker.py: `chunk_discord_content`.
--   ReplyChunker/Bounds and ReplyChunker/Fits measure the chunks, ReplyChunker/Pieces puts a
--   split line together again. A text is the list of its characters, the white space that
--   `lstrip` removes is a parameter.
-- - Concurrency models c_lord/concurrency.py: `SessionRegistry`, whose history for each thread is
--   in Concurrency/History.
-- - TurnProgress models c_lord/discord_ui/turn_progress.py: `TurnProgress`, with the cutting of
--   its labels in TurnProgress/Labels. What became of each line is part of the state
--   (TurnProgress/Ledger, TurnProgress/History); TurnProgress/Short measures the labels,
--   TurnProgress/Words says what the line tells.
-- - Claims models c_lord/transcript/claim.py: the claim file and its history (Claims/Names has
--   the session ids, Claims/Ledger what a reader sees over any writes), and what a `/clear`
--   started (Claims/Successor reads a transcript's head, Claims/Choice has
--   `newest_transcript_id`, `clear_successor` and `adopt_cleared_session`; Claims/Latest,
--   Claims/Takeover and Claims/Adopt are about them).
-- - Resolver models c_lord/transcript/resolver.py: `ThreadSessionResolver`, whose `resolve`
--   (Resolver/Poll) says which transcript a thread's mirror reads, with the search for c-lord's
--   mark (Resolver/Marker; the slices are read with fuel of one more than the bytes, which
--   Resolver/Slices and Resolver/Whole compare with the search of the whole file). Resolver/Live
--   is the walk over /proc, which Resolver/Started and Resolver/Alive are about. It uses Claims
--   for the claim files and gives Tail its path. Resolver/Clean, Resolver/Strangers and
--   Resolver/Never follow a transcript that is not the thread's through a poll, Resolver/Claimed
--   is about the claim, Resolver/Repin and Resolver/Pin about the pin.
-- - Prelude has what they share: tests, lists over the native numbers, Python's dict with
--   insertion order (Prelude/Dict), the dict bounded by dropping its oldest entry (Prelude/Fifo),
--   a stable sort (Prelude/Ranked), and texts (Prelude/Texts).
--
-- The parts meet through their data: the cap takes the rows of Sessions and the victims of
-- ResidentCap/Select; the gate and the controls share the rule that an empty allow-list means
-- that nobody was listed. Most loops of the source walk a list, a dict or a bounded history, and
-- are recursion on it. The two loops of Tail that read blocks and the splitting of a long line
-- run on fuel: every round takes at least one byte or character, so their number is enough, and
-- the theorems about `whole_lines_end`, `seed_seen_uuids` and `hard_split` give their result for
-- every input. A float comparison of memory readings and the budget division are parameters,
-- which the theorems take as they come.
--
-- Not modelled: log lines other than their rate, what other coroutines do while a pass of the
-- cap, a menu's database call or a fold's post is awaited, the asyncio loop around the polls of a
-- tail (a call is one step of its model), and the parts that are mostly calls of tmux, git,
-- Discord or SQLite: the cogs, the tmux layer, the transcript mirror, the session directories and
-- the views.
pub mod Prelude
pub mod AskBus
pub mod TurnEnd
pub mod LogSampler
pub mod MenuLedger
pub mod Authorization
pub mod CommandGate
pub mod Sessions
pub mod ResidentCap
pub mod RepeatFold
pub mod IdleSweep
pub mod Tail
pub mod TurnActivity
pub mod Lamp
pub mod ReplyChunker
pub mod Concurrency
pub mod TurnProgress
pub mod Claims
pub mod Resolver
