-- ===== src/Kernel.antt =====
-- kernel/session.py: the bridge from a kernel's messages to the record of the current cell. The lock
-- makes each of its sections one step; between the two sections that end a cell the collector reads
-- the reply, and others may step in. Signals and callbacks are effects. The kernel's process and its
-- channels, kernel/runtime.py and jupyter_client, are behind the events.
pub mod Interrupts
pub mod Requests
pub mod Outcomes
pub mod Steps
use mathlib.Core.Option.{map}
use loommux.Execution.Events.{Value}
use loommux.Prelude.{
  text_eq_refl, ◌≡◌, refl, text_is_eq, not, ◌&&◌, ◌++◌, ◌||◌, ◌∷◌, if◌then◌else◌, text_eq, codes,
  Bool, List, Option, Text, [], false, true, some, none,
}
use loommux.Execution.{
  append_notice, kill, cell_result, is_running, append_display_data, finish_cell, cell_stderr,
  cell_stdout, record_error, Execution,
}
use loommux.Prelude.Dict.{get, Dict}
use loommux.Logs.Projections.{terminated}

pub record KernelSession : Type 0 where
  pub has_client : Bool
  pub current_execution : Option Execution
  pub started : Bool
  pub interrupt_on_start : Bool
  pub interrupt_sent : Bool
  pub collector_stopped : Bool
  pub exit_notified : Bool

-- What others see of a step: a signal to the process, and the two callbacks.
pub data Effect : Type 0 where
  signal : Effect
  on_idle : Execution → Effect
  on_exit : Option Execution → Effect

pub data Stream : Type 0 where
  stdout_stream stderr_stream other_stream : Stream

-- A message by its type; `none` is a bundle that is no dictionary.
pub data MessageContent : Type 0 where
  execute_input idle other_message : MessageContent
  stream : Stream → Text → MessageContent
  execute_result display_data : (bundle metadata : Option (Dict Text Value)) → MessageContent
  error_message : (ename evalue : Text) → List Text → MessageContent

pub record Message : Type 0 where
  pub parent : Option Text
  pub content : MessageContent

-- submit: the record gets the id of the request, and the interrupt state begins again. `none` is
-- RuntimeError.
unfoldable pub submit : KernelSession → Execution → Text → Option KernelSession
submit s e request =
    if not s.has_client
    then none
    else some (record s {
      current_execution = some (record e { msg_id = some request });
      started = false;
      interrupt_on_start = false;
      interrupt_sent = false;
    })

-- interrupt: one before the start of the cell is held.
unfoldable pub interrupt : KernelSession → KernelSession × List Effect
interrupt s = elim s.current_execution [
  | none ↦ (s, signal ∷ [])
  | some e ↦
      if s.started
      then (record s { interrupt_sent = true }, signal ∷ [])
      else (record s { interrupt_on_start = true }, [])
]

killed : Bool → Execution → Execution
killed mark e = if mark && is_running e then kill e else e

-- shutdown: the state, and the record that it released.
unfoldable pub shutdown : Bool → KernelSession → KernelSession × Option Execution
unfolding killed
shutdown mark s = (
  record s { current_execution = none; collector_stopped = true; has_client = false },
  map (killed mark) s.current_execution,
)

-- _notify_kernel_exit
unfoldable pub notify_kernel_exit : KernelSession → KernelSession × List Effect
notify_kernel_exit s = if s.exit_notified || s.collector_stopped then (s, []) else (
  record s { exit_notified = true; current_execution = none },
  on_exit s.current_execution ∷ [],
)

-- NOTICE_MIME
abbrev pub notice_mime : Text
notice_mime = codes "application/vnd.loommux.notice"

unfoldable pub same_id : Option Text → Option Text → Bool
same_id none none = true
same_id (some a) (some b) = text_eq a b
same_id _ _ = false

pub same_id_self : (a : Option Text) → same_id a a ≡ true
unfolding same_id
same_id_self none = refl
same_id_self (some t) = text_eq_refl t

abbrev pub started_by : KernelSession → MessageContent → KernelSession × List Effect
started_by s execute_input = (
  record s {
    started = true;
    interrupt_on_start = false;
    interrupt_sent = s.interrupt_sent || s.interrupt_on_start;
  },
  if s.interrupt_on_start then signal ∷ [] else [],
)
started_by s _ = (s, [])

-- Whether the message ends the cell.
abbrev pub ends_cell : MessageContent → Bool
ends_cell idle = true
ends_cell _ = false

module _ (to_str : Value → Text) where
  pub plain_text : Execution → Option (Dict Text Value) → Execution
  plain_text e none = e
  plain_text e (some bundle) = elim (get bundle (codes "text/plain")) [
    | none ↦ e
    | some v ↦ cell_result e (to_str v)
  ]

  pub notice_in : Option (Dict Text Value) → Option Text
  notice_in none = none
  notice_in (some bundle) = map to_str (get bundle notice_mime)

  -- What a message that comes from the cell does to its record.
  unfoldable pub recorded : Execution → MessageContent → Execution
  unfolding plain_text notice_in
  recorded e execute_input = e
  recorded e idle = e
  recorded e other_message = e
  recorded e (stream stdout_stream t) = cell_stdout e t
  recorded e (stream stderr_stream t) = cell_stderr e t
  recorded e (stream other_stream t) = e
  recorded e (execute_result bundle metadata) =
      append_display_data (plain_text e bundle) bundle metadata
  recorded e (display_data bundle metadata) = elim (notice_in bundle) [
    | some t ↦ append_notice e t
    | none ↦ append_display_data (plain_text e bundle) bundle metadata
  ]
  recorded e (error_message ename evalue traceback) = record_error e ename evalue traceback

  -- _handle_message, its first section: with the effects, the cell that it found idle and whether an
  -- interrupt was sent to it.
  unfoldable pub handle_message :
      KernelSession → Message → KernelSession × List Effect × Option (Option Text × Bool)
  unfolding recorded
  handle_message s m = elim s.current_execution [
    | none ↦ (s, [], none)
    | some e ↦
        let (s', effects) = started_by s m.content in
        if not (same_id m.parent e.msg_id) then (s, [], none) else (
          record s' { current_execution = some (recorded e m.content) },
          effects,
          if ends_cell m.content then some (e.msg_id, s.interrupt_sent) else none,
        )
  ]

-- A reply on the shell channel: its parent, and the texts that it asks to page.
pub record Reply : Type 0 where
  pub parent : Option Text
  pub pages : List Text

abbrev page_text : Text → Text
page_text [] = []
page_text (c ∷ t) = terminated (c ∷ t)

joined_pages : List Text → Text
joined_pages [] = []
joined_pages (p ∷ ps) = page_text p ++ joined_pages ps

-- _read_reply: the replies that arrive in time, up to the cell's own; `none` where it does not come.
unfoldable pub read_reply : Option Text → List Reply → Option Text
unfolding joined_pages
read_reply request [] = none
read_reply request (r ∷ rs) =
    let rest = read_reply request rs in
    if same_id r.parent request then some (joined_pages r.pages) else rest

-- INTERRUPTED_BEFORE_START
abbrev pub interrupted_before_start : Text
interrupted_before_start = codes "interrupted before its code ran"

abbrev paged : Execution → Option Text → Execution
paged e none = e
paged e (some []) = e
paged e (some (c ∷ t)) = cell_stdout e (c ∷ t)

-- The error of a cell that an interrupt kept from running.
abbrev pub never_ran : Execution → Option Text → Bool → Execution
never_ran e none true = elim e.error [
  | some f ↦ e
  | none ↦
      record_error e (codes "KeyboardInterrupt") interrupted_before_start
        ((codes "KeyboardInterrupt: " ++ interrupted_before_start) ∷ [])
]
never_ran e _ _ = e

-- _handle_message, its second section: the cell ends, unless it was released meanwhile.
unfoldable pub finish_execution :
    KernelSession → Option Text → Bool → Option Text → KernelSession × List Effect
finish_execution s request interrupt_sent page = elim s.current_execution [
  | none ↦ (s, [])
  | some e ↦
      if same_id e.msg_id request
      then (
        record s { current_execution = none },
        on_idle (finish_cell (never_ran (paged e page) page interrupt_sent)) ∷ [],
      )
      else (s, [])
]
