-- ===== src/Execution.antt =====
-- execution/record.py and notice.py: one accepted cell, its output, its notices and its errors. The
-- clocks and the kernel's pid, which decide nothing here, are left out.
pub mod Events
pub mod Handout
pub mod Tokens
use loommux.Prelude.{
  or_else, text_is_eq, ◌-◌, ◌++◌, ◌==◌, ◌&&◌, ltb, codes, leb, ◌∷◌, text_eq, Option, if◌then◌else◌,
  ◌+◌, List, ℕ, Text, Bool, [], false, true, some, none,
}
use loommux.Logs.{joined}
use loommux.Prelude.Lists.{first, any, take, drop, length}
use loommux.Logs.Projections.{
  append_traceback, append_result, append_stderr, append_stdout, ExecutionLogs,
}
use loommux.Terminal.{text, ParserState, normalize}
use loommux.Prelude.Decimal.{decimal}
use loommux.Execution.Events.{
  presented_failure, presented_image, null, image_mime_preference, Value, presented_text,
  PresentationElement,
}
use loommux.Prelude.Dict.{keys, get, Dict}
use loommux.Prelude.Strings.{starts_with}

pub data ExecutionStatus : Type 0 where
  running completed error interrupted killed : ExecutionStatus

-- What is read of an error: its name.
pub record ErrorFacts : Type 0 where
  pub ename : Option Text
  pub evalue : Option Text

pub record Execution : Type 0 where
  pub execution : ℕ
  pub status : ExecutionStatus
  pub full_output_requested : Bool
  pub error : Option ErrorFacts
  pub msg_id : Option Text
  pub interrupt_requested : Bool
  pub done : Bool
  pub logs : ExecutionLogs
  pub presentation : List PresentationElement
  pub notices : List Text
  pub notices_not_kept : ℕ
  pub notices_taken : ℕ
  pub notices_finished : Bool
  pub result_parts : List Text
  pub next_display_ordinal : ℕ
  pub stdout_normalizer : ParserState
  pub stderr_normalizer : ParserState
  pub result_normalizer : ParserState
  pub traceback_normalizer : ParserState
  pub output_token_count : Option ℕ

abbrev notice_max_characters : ℕ
notice_max_characters = 500

abbrev pub notices_per_execution : ℕ
notices_per_execution = 10

-- bounded: the last character of a notice that is cut is an ellipsis.
pub bounded : Text → Text
bounded t =
    if leb (length t) notice_max_characters
    then t
    else take (notice_max_characters - 1) t ++ 0x2026 ∷ []

-- more_notices
pub more_notices : ℕ → Text
more_notices count =
    codes "and "
    ++ decimal count
    ++ codes " more notice"
    ++ (if count == 1 then [] else codes "s")
    ++ codes " that were not kept"

unfoldable pub is_running : Execution → Bool
is_running e = elim e.status [ running ↦ true | _ ↦ false ]

-- `if normalized: self._invalidate_output_token_count()`, and _append_presentation_text.
unfoldable pub noted : Execution → Text → Execution
noted e [] = e
noted e (c ∷ t) = record e {
  output_token_count = none;
  presentation = e.presentation ++ presented_text (c ∷ t) ∷ [];
}

-- append_stdout
unfoldable pub cell_stdout : Execution → Text → Execution
cell_stdout e t =
    let (s, out) = normalize e.stdout_normalizer t in
    noted (record e { stdout_normalizer = s; logs = append_stdout e.logs out }) out

-- append_stderr
unfoldable pub cell_stderr : Execution → Text → Execution
cell_stderr e t =
    let (s, out) = normalize e.stderr_normalizer t in
    noted (record e { stderr_normalizer = s; logs = append_stderr e.logs out }) out

abbrev add_part : List Text → Text → List Text
add_part parts [] = parts
add_part parts (c ∷ t) = parts ++ (c ∷ t) ∷ []

-- append_result_text
unfoldable pub cell_result : Execution → Text → Execution
cell_result e t =
    let (s, out) = normalize e.result_normalizer t in
    noted
      (record e {
        result_normalizer = s;
        result_parts = add_part e.result_parts out;
        logs = append_result e.logs out e.execution;
      })
      out

-- append_notice
unfoldable pub append_notice : Execution → Text → Execution
unfolding bounded
append_notice e t =
    if leb notices_per_execution (length e.notices)
    then record e { notices_not_kept = e.notices_not_kept + 1 }
    else record e { notices = e.notices ++ bounded (normalize text t).1 ∷ [] }

-- notice_texts
abbrev pub notice_texts : Execution → List Text
unfolding more_notices
notice_texts e =
    if e.notices_not_kept == 0 then e.notices else e.notices ++ more_notices e.notices_not_kept ∷ []

abbrev pub has_untaken_notices : Execution → Bool
has_untaken_notices e = ltb e.notices_taken (length e.notices)

-- The kept notices that no result has handed out.
abbrev pub untaken : Execution → List Text
untaken e = drop e.notices_taken e.notices

abbrev pub taken_all : Execution → Execution
taken_all e = record e { notices_taken = e.notices_taken + length (untaken e) }

-- take_notices
unfoldable pub take_notices : Execution → List Text × Execution
take_notices e =
    if e.notices_finished then ([], e) else if is_running e then (untaken e, taken_all e) else (
      if e.notices_not_kept == 0
          then untaken e
          else untaken e ++ more_notices e.notices_not_kept ∷ [],
      record (taken_all e) { notices_finished = true },
    )

-- The lines of a traceback, through one normalizer.
unfoldable pub normalize_lines : ParserState → List Text → ParserState × List Text
normalize_lines n [] = (n, [])
normalize_lines n (l ∷ ls) =
    let (n', out) = normalize n l in let (n'', rest) = normalize_lines n' ls in (n'', out ∷ rest)

-- record_error, for an error that has a name, a value and a traceback, as every call gives it.
unfoldable pub record_error : Execution → Text → Text → List Text → Execution
unfolding normalize_lines
record_error e ename evalue traceback =
    let (n, name) = normalize e.traceback_normalizer ename in
    let (n', value) = normalize n evalue in
    let (n'', lines) = normalize_lines n' traceback in
    let (output, logs') = append_traceback e.logs lines in
    record (noted (record e { traceback_normalizer = n''; logs = logs' }) output) {
      error = some (record { ename = some name; evalue = some value });
      status = error;
    }

abbrev was_interrupted : Execution → Bool
was_interrupted e = elim e.error [
  | none ↦ false
  | some f ↦ elim f.ename [ none ↦ false | some n ↦ text_eq n (codes "KeyboardInterrupt") ]
]

unfoldable pub final_status : Execution → ExecutionStatus
final_status e = elim e.status [
  | running ↦ completed
  | error ↦ if e.interrupt_requested && was_interrupted e then interrupted else error
  | s ↦ s
]

-- finish
unfoldable pub finish_cell : Execution → Execution
finish_cell e = record e { status = final_status e; done = true }

-- kill
unfoldable pub kill : Execution → Execution
kill e = record e { status = killed; done = true }

-- record_kernel_exit; the detail is a message.
unfoldable pub record_kernel_exit : Execution → Text → Execution
record_kernel_exit e detail = kill (record e {
  error = some (record { ename = some (codes "KernelProcessExited"); evalue = some detail });
})

-- The first preferred type that a bundle of display data has, with its data.
preferred : List Text → Dict Text Value → Option (Text × Value)
preferred [] bundle = none
preferred (mime ∷ mimes) bundle =
    let rest = preferred mimes bundle in
    elim (get bundle mime) [ some image ↦ some (mime, image) | none ↦ rest ]

unsupported_message : ℕ → ℕ → Text → Text
unsupported_message execution ordinal mime =
    codes "Image delivery failed for execution "
    ++ decimal execution
    ++ codes " display "
    ++ decimal ordinal
    ++ codes ": unsupported MIME type "
    ++ mime
    ++ codes "."

-- metadata.get("detail"), where the metadata is a dictionary.
detail_of : Option (Dict Text Value) → Value
detail_of none = null
detail_of (some metadata) = or_else (get metadata (codes "detail")) null

shown_display : ℕ → ℕ → Dict Text Value → Option (Dict Text Value) → List PresentationElement
shown_display execution ordinal bundle metadata = elim (preferred image_mime_preference bundle) [
  | some (mime, image) ↦ presented_image image mime (detail_of metadata) ordinal ∷ []
  | none ↦ elim (first (starts_with (codes "image/")) (keys bundle)) [
    | some mime ↦ presented_failure (unsupported_message execution ordinal mime) ∷ []
    | none ↦ []
  ]
]

-- append_display_data: `none` is a value that is no dictionary.
unfoldable pub append_display_data :
    Execution → Option (Dict Text Value) → Option (Dict Text Value) → Execution
unfolding shown_display preferred detail_of unsupported_message
append_display_data e none metadata = record e { next_display_ordinal = e.next_display_ordinal + 1 }
append_display_data e (some bundle) metadata = record e {
  next_display_ordinal = e.next_display_ordinal + 1;
  presentation = e.presentation ++ shown_display e.execution e.next_display_ordinal bundle metadata;
}

-- has_rich_presentation
abbrev pub has_rich_presentation : Execution → Bool
has_rich_presentation e = any (λ x. elim x [ presented_text t ↦ false | _ ↦ true ]) e.presentation

pub data Omission : Type 0 where
  still_running token_limit_exceeded : Omission

abbrev output_token_limit : ℕ
output_token_limit = 5000

-- _combined_output_token_count, with the tokenizer as an argument: it is kept until output arrives.
unfoldable pub combined_output_token_count : (Text → ℕ) → Execution → ℕ × Execution
combined_output_token_count tokens e = elim e.output_token_count [
  | some n ↦ (n, e)
  | none ↦
      let (t, log) = joined e.logs.combined in
      (
        tokens t,
        record e { output_token_count = some (tokens t); logs = record e.logs { combined = log } },
      )
]

-- _output_omitted_reason
unfoldable pub output_omitted_reason : (Text → ℕ) → Execution → Option Omission × Execution
output_omitted_reason tokens e =
    let (n, e') = combined_output_token_count tokens e in
    if is_running e
    then (some still_running, e)
    else if e.full_output_requested
    then (none, e)
    else (if ltb output_token_limit n then some token_limit_exceeded else none, e')
