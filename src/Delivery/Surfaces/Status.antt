-- ===== src/Delivery/Surfaces/Status.antt =====
-- mcp/presentation.py: the texts of the status tools, and the choice of a text by the tool.
use loommux.Prelude.{
  text_eq, text_is_eq, ◌++◌, ℕ, ◌∷◌, codes, if◌then◌else◌, Text, Option, List, [], some, none,
}
use loommux.Delivery.Surfaces.{
  generic_surface, interrupt_surface, search_output_surface, read_output_surface, execution_surface,
  run_cell, wait, read_output, search_output, status, execution_status, interrupt, restart,
  other_tool, after_colon, execution_number, text_or, failure_surface, format_duration,
  is_tool_failure, get_or, ErrorField, KernelAnswer, Answer, Tool,
}
use loommux.Prelude.Dict.{get, Dict}
use loommux.Prelude.Decimal.{decimal}

-- `_compact` of a number or of nothing.
abbrev pub compact : Option ℕ → Text
compact none = codes "null"
compact (some n) = decimal n

pub data KernelStanding : Type 0 where
  busy idle restarting not_started : KernelStanding

unfoldable kernel_standing : KernelAnswer → KernelStanding
kernel_standing k =
    if k.is_busy
    then busy
    else if k.is_started
    then idle
    else if k.is_restarting
    then restarting
    else not_started

execution_line : KernelAnswer → KernelStanding → Text
execution_line k busy = codes "\ncurrent_execution: " ++ compact k.current_execution
execution_line k _ = codes "\nrecent_execution: " ++ compact k.recent_execution

standing_text : KernelStanding → Text
standing_text busy = codes "busy"
standing_text idle = codes "idle"
standing_text restarting = codes "restarting"
standing_text not_started = codes "not_started"

name_line : Text → Text
name_line [] = []
name_line (c ∷ t) = codes "name: " ++ (c ∷ t) ++ codes "\n"

-- _python_status_surface
unfoldable pub python_status_surface : KernelAnswer → Text
unfolding kernel_standing execution_line standing_text name_line
python_status_surface k =
    name_line (get_or k.kernel_name [])
    ++ codes "kernel: "
    ++ standing_text (kernel_standing k)
    ++ execution_line k (kernel_standing k)
    ++ codes "\nworkspace: "
    ++ get_or k.workspace (codes "null")
    ++ codes "\nworkspace_resolution: "
    ++ get_or k.workspace_resolution (codes "null")

-- _error_sentence, without its full stop.
unfoldable pub error_sentence : Text → ErrorField → Text
error_sentence execution e =
    codes "Python execution "
    ++ execution
    ++ codes " failed with "
    ++ text_or e.ename (codes "Error")
    ++ after_colon (text_or e.evalue [])

abbrev detail_keys : List Text
detail_keys =
    codes "submitted_at"
    ∷ codes "updated_at"
    ∷ codes "completed_at"
    ∷ codes "kernel_pid"
    ∷ codes "output_total_lines"
    ∷ codes "output_omitted_reason"
    ∷ []

-- The loop over the keys that may be missing.
detail_lines : Dict Text Text → List Text → Text
detail_lines d [] = []
detail_lines d (key ∷ ks) = elim (get d key) [
  | none ↦ detail_lines d ks
  | some shown ↦ codes "\n" ++ key ++ codes ": " ++ shown ++ detail_lines d ks
]

-- _execution_status_surface
unfoldable pub execution_status_surface : Answer → Text
unfolding detail_lines error_sentence
execution_status_surface a =
    let elapsed : Text = elim a.elapsed_seconds [
      | none ↦ []
      | some d ↦ codes "\nelapsed: " ++ format_duration d
    ] in
    let failed : Text = elim a.error [
      | none ↦ []
      | some e ↦ codes "\n" ++ error_sentence (execution_number a) e
    ] in
    codes "execution "
    ++ execution_number a
    ++ codes ": "
    ++ get_or a.state (codes "unknown")
    ++ elapsed
    ++ failed
    ++ detail_lines a.details detail_keys

-- format_tool_result_text
unfoldable pub format_tool_result_text : Tool → Answer → Text
format_tool_result_text tool a = if is_tool_failure tool a then failure_surface a else elim tool [
  | run_cell ↦ execution_surface a
  | wait ↦ execution_surface a
  | read_output ↦ read_output_surface a
  | search_output ↦ search_output_surface a
  | status ↦ python_status_surface a.kernel
  | execution_status ↦ execution_status_surface a
  | interrupt ↦ interrupt_surface a
  | restart ↦
      if text_eq (get_or a.state []) (codes "restarted")
      then codes "Python kernel restarted."
      else generic_surface a
  | other_tool ↦ generic_surface a
]
