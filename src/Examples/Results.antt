-- ===== src/Examples/Results.antt =====
-- Tests of the texts of results.
use loommux.Prelude.{Option, ℕ, text_eq, ◌∷◌, codes, ◌≡◌, [], false, true, refl, some, none}
use loommux.Delivery.Surfaces.{
  run_cell, execution_status, append_control_line, is_tool_failure, format_execution_input,
  format_duration, execution_number, wait, with_execution_input, execution_surface, KernelAnswer,
  Answer,
}
use loommux.Delivery.Environment.{label-injective, label, format_notices}
use loommux.Delivery.Surfaces.Status.{execution_status_surface, format_tool_result_text}
use loommux.Delivery.Surfaces.Coordinate.{is_cell_tool, format_tool_result_text-names}
use loommux.Logs.{joined}
use loommux.Prelude.Decimal.{digits, decimal}
use loommux.Prelude.Dict.{get}
use loommux.Session.Notices.{said_by}
use loommux.Prelude.Strings.{rstrip}

abbrev kernel_answer : KernelAnswer
kernel_answer = record {
  kernel_name = some (codes "lab");
  is_busy = true;
  is_started = true;
  is_restarting = false;
  current_execution = some 12;
  recent_execution = some 12;
  workspace = none;
  workspace_resolution = none;
}

abbrev killed_answer : Answer
killed_answer = record {
  ok = some false;
  state = some (codes "killed");
  message = none;
  execution = some 12;
  elapsed_seconds = some (record { milliseconds = 40; seconds = codes "0.0" });
  output_text = some (codes "half \n");
  error = none;
  silent_seconds = none;
  recent_lines = [];
  is_over_token_limit = false;
  omission_notice = [];
  text = none;
  returned_lines = 0;
  matched_lines = 0;
  dumped = [];
  details = (codes "kernel_pid", codes "7") ∷ [];
  kernel = kernel_answer;
}

killed_text :
    format_tool_result_text wait killed_answer
    ≡ codes "In [12] · 40 ms:\nhalf\nKilled: restart() stopped this execution."
unfolding format_tool_result_text execution_surface with_execution_input format_execution_input
    execution_number append_control_line format_duration is_tool_failure decimal digits rstrip
    text_eq
killed_text = refl

status_text :
    format_tool_result_text execution_status killed_answer
    ≡ codes "execution 12: killed\nelapsed: 40 ms\nkernel_pid: 7"
unfolding format_tool_result_text execution_status_surface execution_number format_duration
    is_tool_failure decimal digits get text_eq
status_text = refl

format_tool_result_text-names_example : ◌≡◌ {A = ℕ} 12 12
unfolding is_cell_tool format_tool_result_text is_tool_failure
format_tool_result_text-names_example =
    format_tool_result_text-names run_cell wait killed_answer killed_answer 12 12 refl refl refl
      refl refl

said_texts :
    format_notices
      (said_by (some 3) (codes "a") ∷ said_by none (codes "b") ∷ said_by (some 4) (codes "c") ∷ [])
      (some 4)
    ≡ codes "In [3] · a\nStartup · b\nc"
unfolding format_notices label joined decimal digits
said_texts = refl

label-injective_example : ◌≡◌ {A = Option ℕ} (some 3) (some 3)
label-injective_example = label-injective (some 4) (some 3) (some 3) refl
