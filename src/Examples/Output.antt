-- ===== src/Examples/Output.antt =====
-- Tests of the logs of output and of notices.
use loommux.Terminal.{text}
use loommux.Prelude.{
  ℕ, nat_eq, ◌==◌, ◌||◌, ◌+◌, ◌&&◌, leb, ◌++◌, if◌then◌else◌, ◌∷◌, codes, ◌≡◌, arith, Text, List,
  [], false, true, refl, some, none,
}
use loommux.Logs.Lines.{selected_lines, reading, resolve_line_range}
use loommux.Execution.{more_notices, untaken, is_running, completed, take_notices, Execution}
use loommux.Logs.{encoded_size, concat, append, LineLog, text_since}
use loommux.Execution.Handout.{take_notices_lem, delivered, IsHanded}
use loommux.Logs.Search.{Ascends, selected_numbers_lem, in_context, selected_numbers, is_in}
use loommux.Logs.Since.{text_since-drop, whole, IsLog, ends_of}
use loommux.Prelude.Lists.{drop, take, length}
use loommux.Logs.Counts.{append-IsLog}
use loommux.Logs.Lines.Ranges.{reading_lem}
use loommux.Session.Numbers.{IsSession}
use loommux.Session.{accepted, accept_cell, Session}
use loommux.Prelude.Dict.{get}
use loommux.Prelude.Result.{ok}

abbrev pub spoken : LineLog
spoken = record {
  text = codes "one";
  pending = codes "two" ∷ [];
  pending_ends = 6 ∷ [];
  lines = none;
  character_count = 6;
  utf8_byte_count = 6;
}

pub spoken-IsLog : IsLog spoken
unfolding ends_of concat encoded_size
spoken-IsLog = record { ends = refl; characters = refl; bytes = refl }

text_since-drop_example : text_since spoken 4 ≡ drop 4 (whole spoken)
text_since-drop_example = text_since-drop spoken 4 spoken-IsLog

append-IsLog_example :
    IsLog (append spoken (codes "!"))
    × (whole (append spoken (codes "!")) ≡ whole spoken ++ codes "!")
append-IsLog_example = append-IsLog spoken (codes "!") spoken-IsLog

abbrev three : List Text
three = codes "a" ∷ codes "b" ∷ codes "c" ∷ []

reading_lem_example :
    (three
      ≡ take (reading three (record { start = 1; stop = 3 }) none).omitted_before three
        ++ (selected_lines three (record { start = 1; stop = 3 })
            ++ drop
                ((reading three (record { start = 1; stop = 3 }) none).omitted_before
                  + (reading three (record { start = 1; stop = 3 }) none).returned_lines)
                three))
    × ((reading three (record { start = 1; stop = 3 }) none).omitted_before
          + (reading three (record { start = 1; stop = 3 }) none).returned_lines
          + (reading three (record { start = 1; stop = 3 }) none).omitted_after
        ≡ length three)
unfolding resolve_line_range
reading_lem_example = reading_lem three none (record { start = 1; stop = 3 }) none refl

selected_numbers_lem_example :
    Ascends 0 (selected_numbers 1 0 three ((3, 1) ∷ []))
    × ((n : ℕ)
        → is_in n (selected_numbers 1 0 three ((3, 1) ∷ []))
          ≡ ((leb 1 n && leb n (length three)) && in_context 1 0 n ((3, 1) ∷ [])))
selected_numbers_lem_example = selected_numbers_lem 1 0 three ((3, 1) ∷ [])

abbrev pub cell : Execution
cell = record {
  execution = 1;
  status = completed;
  full_output_requested = false;
  error = none;
  msg_id = some (codes "m1");
  interrupt_requested = false;
  done = true;
  logs = record {
    combined = spoken;
    stdout = spoken;
    stderr = spoken;
    result = spoken;
    traceback = spoken;
  };
  presentation = [];
  notices = codes "a" ∷ codes "b" ∷ [];
  notices_not_kept = 3;
  notices_taken = 1;
  notices_finished = false;
  result_parts = [];
  next_display_ordinal = 1;
  stdout_normalizer = text;
  stderr_normalizer = text;
  result_normalizer = text;
  traceback_normalizer = text;
  output_token_count = none;
}

pub cell-IsHanded : IsHanded cell
cell-IsHanded = record { taken_le = omega arith }

take_notices_lem_example :
    IsHanded (take_notices cell).1
    × (delivered (take_notices cell).1 ≡ delivered cell ++ untaken cell)
    × (delivered (take_notices cell).1 ≡ cell.notices)
    × ((take_notices cell).0 ≡ (
        if is_running cell || cell.notices_not_kept == 0
        then untaken cell
        else untaken cell ++ more_notices cell.notices_not_kept ∷ []))
    × ((take_notices (take_notices cell).1).0 ≡ [])
take_notices_lem_example = take_notices_lem cell cell-IsHanded refl

abbrev pub opened_session : Session
opened_session = record {
  workspace_set = true;
  has_kernel = true;
  executions = [];
  current_execution = none;
  recent_execution = none;
  kernel_restarting = false;
  next_execution = 1;
  noticed_through = 0;
  startup_notices = [];
}

pub opened-IsSession : IsSession opened_session
unfolding get
opened-IsSession = record {
  numbered = λ n low high. absurd (omega arith);
  numbers = λ n e h. ground arith;
  next_pos = omega arith;
  current = λ n h. ground arith;
  recent = λ n h. ground arith;
}

pub first_cell :
    accept_cell (λ n. cell) opened_session true ≡ ok (accepted (λ n. cell) opened_session)
unfolding accept_cell
first_cell = refl
