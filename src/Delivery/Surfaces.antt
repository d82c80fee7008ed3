-- ===== src/Delivery/Surfaces.antt =====
-- mcp/presentation.py: the text of a result. A result of a session is a record of the keys that are
-- read; how Python prints a float or dumps JSON is in its fields, as are the lines of a notice on
-- omitted output.
pub mod Coordinate
pub mod Status
use loommux.Prelude.{
  ◌++◌, text_eq, ◌==◌, is_some, ltb, if◌then◌else◌, ◌∷◌, codes, not, Text, Bool, Option, ℕ, List,
  [], false, true, some, none,
}
use loommux.Prelude.Decimal.{decimal}
use loommux.Prelude.Strings.{rstrip}
use loommux.Prelude.Dict.{Dict}

pub data Tool : Type 0 where
  run_cell wait read_output search_output status execution_status interrupt restart other_tool :
      Tool

-- A duration: its milliseconds, rounded, and its seconds with one decimal.
pub record Duration : Type 0 where
  pub milliseconds : ℕ
  pub seconds : Text

-- The error of an execution, with texts that may be missing or empty.
pub record ErrorField : Type 0 where
  pub ename : Option Text
  pub evalue : Option Text

-- What the status of a session says of its kernel.
pub record KernelAnswer : Type 0 where
  pub kernel_name : Option Text
  pub is_busy : Bool
  pub is_started : Bool
  pub is_restarting : Bool
  pub current_execution : Option ℕ
  pub recent_execution : Option ℕ
  pub workspace : Option Text
  pub workspace_resolution : Option Text

pub record Answer : Type 0 where
  pub ok : Option Bool
  pub state : Option Text
  pub message : Option Text
  pub execution : Option ℕ
  pub elapsed_seconds : Option Duration
  pub output_text : Option Text
  pub error : Option ErrorField
  pub silent_seconds : Option Text
  pub recent_lines : List Text
  pub is_over_token_limit : Bool
  pub omission_notice : Text
  pub text : Option Text
  pub returned_lines : ℕ
  pub matched_lines : ℕ
  pub dumped : Text
  pub details : Dict Text Text
  pub kernel : KernelAnswer

-- `x or default`, for a text that may be missing or empty.
abbrev pub text_or : Option Text → Text → Text
text_or none default_text = default_text
text_or (some []) default_text = default_text
text_or (some (c ∷ t)) default_text = c ∷ t

abbrev pub get_or : {A : Type 0} → Option A → A → A
get_or none a = a
get_or (some a) b = a

-- _execution_number
unfoldable pub execution_number : Answer → Text
execution_number a = elim a.execution [ none ↦ codes "unknown" | some n ↦ decimal n ]

-- _is_tool_failure
unfoldable pub is_tool_failure : Tool → Answer → Bool
is_tool_failure tool a = elim a.ok [
  | some false ↦ elim tool [
    | run_cell ↦ not (is_some a.execution)
    | wait ↦ not (is_some a.execution)
    | execution_status ↦ not (is_some a.execution)
    | _ ↦ true
  ]
  | _ ↦ false
]

-- format_duration
unfoldable pub format_duration : Duration → Text
format_duration d =
    if ltb d.milliseconds 1000
    then decimal d.milliseconds ++ codes " ms"
    else d.seconds ++ codes " s"

-- format_execution_input
unfoldable pub format_execution_input : Text → Option Duration → Text
unfolding format_duration
format_execution_input execution none = codes "In [" ++ execution ++ codes "]:"
format_execution_input execution (some d) =
    codes "In [" ++ execution ++ codes "] · " ++ format_duration d ++ codes ":"

-- _with_execution_input
unfoldable pub with_execution_input : Answer → Text → Text
unfolding format_execution_input
with_execution_input a [] = format_execution_input (execution_number a) a.elapsed_seconds
with_execution_input a (c ∷ body) =
    format_execution_input (execution_number a) a.elapsed_seconds ++ codes "\n" ++ c ∷ body

-- _append_control_line
unfoldable pub append_control_line : Text → Text → Text
append_control_line [] control = control
append_control_line (c ∷ output) control = rstrip (c ∷ output) ++ codes "\n" ++ control

indented : List Text → Text
indented [] = []
indented (l ∷ ls) = codes "\n  " ++ l ++ indented ls

-- _running_surface
unfoldable pub running_surface : Answer → Text
unfolding indented
running_surface a =
    let state : Text = elim a.silent_seconds [
      | none ↦ codes "Running"
      | some silent ↦ codes "Running, silent for " ++ silent ++ codes " s"
    ] in
    let text : Text =
      state
      ++ codes
          ": use wait() for completion, read_output() for collected output, or search_output() to locate text." in
    elim a.recent_lines [ [] ↦ text | l ∷ ls ↦ text ++ codes "\nLast lines:" ++ indented (l ∷ ls) ]

-- `": " + value if value else ""`
unfoldable pub after_colon : Text → Text
after_colon [] = []
after_colon (c ∷ t) = codes ": " ++ c ∷ t

-- _error_detail
unfoldable pub error_detail : Answer → Text
unfolding after_colon
error_detail a = elim a.error [
  | none ↦
      codes "Error: use read_output() to inspect its traceback or search_output() to locate text."
  | some e ↦ codes "Error: " ++ text_or e.ename (codes "Error") ++ after_colon (text_or e.evalue [])
]

-- _execution_surface
unfoldable pub execution_surface : Answer → Text
unfolding running_surface error_detail append_control_line with_execution_input
execution_surface a =
    let state = get_or a.state (codes "unknown") in
    let output = text_or a.output_text [] in
    with_execution_input a (
      if text_eq state (codes "running")
      then running_surface a
      else if text_eq state (codes "error")
      then text_or (some output) (error_detail a)
      else if text_eq state (codes "interrupted")
      then text_or (some output) (
          codes
            "Interrupted: use read_output() to read its output or search_output() to locate text.")
      else if text_eq state (codes "killed")
      then append_control_line output (codes "Killed: restart() stopped this execution.")
      else if a.is_over_token_limit
      then a.omission_notice
      else output)

-- _read_output_surface
unfoldable pub read_output_surface : Answer → Text
read_output_surface a =
    if a.returned_lines == 0
    then codes "No output lines are available."
    else text_or a.text (codes "No output lines are available.")

-- _search_output_surface
unfoldable pub search_output_surface : Answer → Text
search_output_surface a =
    if a.matched_lines == 0
    then codes "No matching output lines were found."
    else text_or a.text (codes "No matching output lines were found.")

-- _failure_surface
unfoldable pub failure_surface : Answer → Text
failure_surface a =
    get_or a.state (codes "error") ++ codes ": " ++ get_or a.message (codes "tool failed")

-- _generic_surface
unfoldable pub generic_surface : Answer → Text
generic_surface a = elim a.state [
  | some state ↦ state
  | none ↦ elim a.ok [ some true ↦ codes "ok" | _ ↦ a.dumped ]
]

-- _interrupt_surface
unfoldable pub interrupt_surface : Answer → Text
unfolding generic_surface
interrupt_surface a =
    let state = get_or a.state [] in
    if text_eq state (codes "interrupt_sent")
    then codes "Interrupt sent to Python execution " ++ execution_number a ++ codes "."
    else if text_eq state (codes "idle")
    then codes "Python kernel is idle."
    else generic_surface a
