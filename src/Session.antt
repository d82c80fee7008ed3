-- ===== src/Session.antt =====
-- session.py: the executions of a session by number, under its lock. Of the kernel it is kept whether
-- there is one; whether its process lives is an argument, as are the records that calls bring.
pub mod Numbers
pub mod Calls
pub mod Notices
pub mod Waiting
pub mod Renumber
pub mod Reach
pub mod Follow
use loommux.Prelude.{
  ◌+◌, is_some, nat_eq, not, ◌&&◌, ◌==◌, Text, if◌then◌else◌, List, ℕ, Option, Bool, [], suc, zero,
  false, true, some, none,
}
use loommux.Execution.{take_notices, record_kernel_exit, kill, is_running, Execution}
use loommux.Prelude.Result.{ok, guard, ◌>>◌, Result}
use loommux.Prelude.Int.{negsuc, pos, ℤ}
use loommux.Prelude.Dict.{put, get, Dict}

pub record Session : Type 0 where
  pub workspace_set : Bool
  pub has_kernel : Bool
  pub executions : Dict ℕ Execution
  pub current_execution : Option ℕ
  pub recent_execution : Option ℕ
  pub kernel_restarting : Bool
  pub next_execution : ℕ
  pub noticed_through : ℕ
  pub startup_notices : List Text

pub data SessionError : Type 0 where
  workspace_not_set kernel_not_started busy : SessionError

-- close, up to the shutdown of the kernel.
unfoldable pub close_session : Session → Session
close_session s = record s { has_kernel = false; current_execution = none }

-- The state after a cell is accepted: `fresh` is the record of a number.
abbrev pub accepted : (ℕ → Execution) → Session → Session
accepted fresh s = record s {
  next_execution = s.next_execution + 1;
  executions = put s.executions s.next_execution (fresh s.next_execution);
  current_execution = some s.next_execution;
  recent_execution = some s.next_execution;
}

-- The section of _submit_python_cell that accepts a cell.
unfoldable pub accept_cell : (ℕ → Execution) → Session → Bool → Result SessionError Session
accept_cell fresh s alive = do
  guard s.workspace_set workspace_not_set
  guard (s.has_kernel && alive) kernel_not_started
  guard (not (is_some s.current_execution)) busy
  ok (accepted fresh s)

-- _forget_records_locked
unfoldable pub forget_records : Session → Session
forget_records s = record s {
  executions = [];
  recent_execution = none;
  next_execution = 1;
  noticed_through = 0;
}

abbrev kill_running : Execution → Execution
kill_running e = if is_running e then kill e else e

-- The record of the current cell, killed if it runs.
killed_cell : Session → Option Execution
killed_cell s = elim s.current_execution [
  | none ↦ none
  | some n ↦ elim (get s.executions n) [ none ↦ none | some e ↦ some (kill_running e) ]
]

-- The section that begins a restart: the record of the cell that it ends, which those who wait for the
-- cell hold, and the session, which forgets it.
unfoldable pub begin_restart : Session → Result SessionError (Option Execution × Session)
unfolding killed_cell
begin_restart s = do
  guard s.workspace_set workspace_not_set
  ok (
    killed_cell s,
    forget_records
        (record s { has_kernel = false; kernel_restarting = true; current_execution = none }),
  )

-- _on_execution_idle
unfoldable pub on_execution_idle : Session → ℕ → Session
on_execution_idle s number = elim s.current_execution [
  | none ↦ s
  | some n ↦ if n == number then record s { current_execution = none } else s
]

abbrev exited : Execution → Text → Execution
exited e detail = if is_running e then record_kernel_exit e detail else e

-- _on_kernel_exit, for the record of this number, if there is one.
unfoldable pub on_kernel_exit : Session → Option ℕ → Text → Session
on_kernel_exit s none detail = s
on_kernel_exit s (some number) detail = elim (get s.executions number) [
  | none ↦ on_execution_idle s number
  | some e ↦
      on_execution_idle (record s { executions = put s.executions number (exited e detail) }) number
]

-- _select_execution: a number that is not positive selects nothing.
unfoldable pub select_execution : Session → Option ℤ → Option Execution
select_execution s (some (pos (suc n))) = get s.executions (suc n)
select_execution s (some (pos zero)) = none
select_execution s (some (negsuc n)) = none
select_execution s none = elim s.current_execution [
  | some n ↦ get s.executions n
  | none ↦ elim s.recent_execution [ none ↦ none | some n ↦ get s.executions n ]
]

-- take_notices_of
unfoldable pub take_notices_of : Session → ℕ → List Text × Session
take_notices_of s number = elim (get s.executions number) [
  | none ↦ ([], s)
  | some e ↦
      let (texts, e') = take_notices e in
      (texts, record s { executions = put s.executions number e' })
]
