-- ===== src/Session/Calls.antt =====
-- session.py: the calls on a session that are not about numbers: status, interrupt, the ends of a
-- start and of a restart, what a caller may ask of a wait, and reading output. Whether the kernel's
-- process lives, and what a start of one brings, are arguments. The time since which a kernel is idle
-- is left out.
use loommux.Session.{
  kernel_not_started, take_notices_of, Session, SessionError, forget_records, select_execution,
}
use loommux.Prelude.{
  ◌+◌, nat_eq, is_some, text_eq, not, ◌&&◌, codes, ◌∷◌, ◌||◌, if◌then◌else◌, Text, Option, ℕ, List,
  Bool, [], suc, zero, false, true, some, none,
}
use loommux.Execution.{record_error, finish_cell, record_kernel_exit, is_running, Execution}
use loommux.Prelude.Int.{finite, float_le, isfinite, pos, ℤ, Float}
use loommux.Prelude.Dict.{put, get, Dict}
use loommux.Prelude.Result.{ok, guard, ◌>>◌, Result}
use loommux.Prelude.Lists.{length, any}
use loommux.Logs.{LineLog, text_since}

pub record Status : Type 0 where
  pub kernel_started : Bool
  pub restarting : Bool
  pub busy : Bool
  pub current : Option ℕ
  pub recent : Option ℕ

-- The record of the current cell, if it runs, gets the exit of the kernel.
unfoldable pub exit_current : Session → Text → Dict ℕ Execution
exit_current s detail = elim s.current_execution [
  | none ↦ s.executions
  | some n ↦ elim (get s.executions n) [
    | none ↦ s.executions
    | some e ↦
        if is_running e then put s.executions n (record_kernel_exit e detail) else s.executions
  ]
]

-- status: a kernel whose process has gone is found out here.
unfoldable pub session_status : Session → Bool → Text → Status × Session
unfolding exit_current
session_status s alive detail =
    let s' : Session =
      if s.has_kernel && not alive
      then record s { executions = exit_current s detail; current_execution = none }
      else s in
    (
      record {
        kernel_started = s.has_kernel && alive;
        restarting = s'.kernel_restarting;
        busy = is_some s'.current_execution;
        current = s'.current_execution;
        recent = s'.recent_execution;
      },
      s',
    )

pub data Interruption : Type 0 where
  no_kernel kernel_idle : Interruption
  interrupt_sent : ℕ → Interruption

-- interrupt, where the system has signals; the record that the request marks is the current one.
unfoldable pub interrupt_cell : Session → Bool → Interruption × Session
interrupt_cell s alive =
    if not (s.has_kernel && alive) then (no_kernel, s) else elim s.current_execution [
      | none ↦ (kernel_idle, s)
      | some n ↦ elim (get s.executions n) [
        | none ↦ (kernel_idle, s)
        | some e ↦ (
          interrupt_sent n,
          record s { executions = put s.executions n (record e { interrupt_requested = true }) },
        )
      ]
    ]

-- _restart_after_windows_interrupt, its locked section: the record that was interrupted, and the session.
unfoldable pub replace_interrupted :
    Session → Execution → Bool → Result SessionError (Execution × Session)
replace_interrupted s e same_kernel = do
  guard (s.workspace_set && s.has_kernel && same_kernel) kernel_not_started
  ok (
    finish_cell (record_error e (codes "KeyboardInterrupt") [] []),
    forget_records
        (record s { has_kernel = false; kernel_restarting = true; current_execution = none }),
  )

-- The record of a cell that could not be submitted.
abbrev pub failed_cell : Execution → Text → Text → Execution
failed_cell e name value = finish_cell (record_error e name value [])

unfoldable pub failed_record : Session → Option ℕ → Text → Text → Dict ℕ Execution
failed_record s none name value = s.executions
failed_record s (some number) name value = elim (get s.executions number) [
  | none ↦ s.executions
  | some e ↦ put s.executions number (failed_cell e name value)
]

-- The section of _submit_python_cell after a submission that raises: the record is ended under the number
-- that the session still holds it by, or none where a restart has forgotten it meanwhile.
unfoldable pub submit_fails : Session → Option ℕ → (name value : Text) → Session
unfolding failed_record
submit_fails s held name value = record s {
  executions = failed_record s held name value;
  current_execution = none;
}

-- KERNEL_START_ATTEMPTS
abbrev kernel_start_attempts : ℕ
kernel_start_attempts = 2

-- _start_kernel: the first attempt that succeeds, of those that there are.
unfoldable pub start_attempts : List Bool → ℕ → Bool
start_attempts outcomes zero = false
start_attempts [] (suc n) = false
start_attempts (worked ∷ outcomes) (suc n) =
    let rest = start_attempts outcomes n in if worked then true else rest

-- _start_kernel and _started: with the kernel come the notices of its startup files.
unfoldable pub start_kernel : Session → List Bool → List Text → Bool × Session
start_kernel s outcomes notices =
    if start_attempts outcomes kernel_start_attempts
    then (true, record s { startup_notices = notices })
    else (false, s)

-- _replace_kernel: the end of a restart, whether the start worked or not.
unfoldable pub replace_kernel : Session → List Bool → List Text → Bool × Session
replace_kernel s outcomes notices =
    let (worked, s') = start_kernel s outcomes notices in
    (worked, record s' { has_kernel = s.has_kernel || worked; kernel_restarting = false })

-- start_workspace, for a workspace that is a directory: the state if the kernel starts.
unfoldable pub start_workspace : Session → List Bool → List Text → Bool × Session
start_workspace s outcomes notices =
    let (worked, s') =
      start_kernel (record s { has_kernel = false; current_execution = none }) outcomes notices in
    if worked
    then (
      true,
      record s' {
        workspace_set = true;
        has_kernel = true;
        executions = [];
        current_execution = none;
        recent_execution = none;
        next_execution = 1;
        noticed_through = 0;
      },
    )
    else (false, s')

-- _validate_timeout, for a value that is a number.
abbrev pub valid_timeout : Bool → Float → Bool
valid_timeout allow_zero x =
    isfinite x
    && (if allow_zero then float_le (finite (pos 0)) x else not (float_le x (finite (pos 0))))

-- _validate_silence
abbrev pub valid_silence : Float → Bool
valid_silence x = isfinite x && not (float_le x (finite (pos 0)))

-- The text since an offset, and the offset from which to ask again.
abbrev pub since : LineLog → ℕ → Text × ℕ
since log offset = let text = text_since log offset in (text, offset + length text)

-- The answer of output_since, once it has waited.
pub record Followed : Type 0 where
  pub text : Text
  pub offset : ℕ
  pub notices : List Text

unfoldable pub output_since : Session → ℕ → ℕ → Option (Followed × Session)
output_since s number offset = elim (select_execution s (some (pos number))) [
  | none ↦ none
  | some e ↦
      let (text, next) = since e.logs.combined offset in
      let (notices, s') = take_notices_of s number in
      some (record { text = text; offset = next; notices = notices }, s')
]

-- `execution_status`, `wait` and the readers answer with the record that is selected.
pub data Selected : Type 0 where
  invalid_stream execution_not_found : Selected
  selected : Execution → Selected

abbrev output_streams : List Text
output_streams =
    codes "combined" ∷ codes "stdout" ∷ codes "stderr" ∷ codes "result" ∷ codes "traceback" ∷ []

-- _select_stream
abbrev pub select_stream : Session → Option ℤ → Text → Selected
select_stream s number stream =
    if any (text_eq stream) output_streams
    then elim (select_execution s number) [ none ↦ execution_not_found | some e ↦ selected e ]
    else invalid_stream
