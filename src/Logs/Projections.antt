-- ===== src/Logs/Projections.antt =====
-- execution/logs.py: `ExecutionLogs`, the five projections of one cell's output.
use loommux.Prelude.{◌==◌, ◌++◌, codes, ℕ, if◌then◌else◌, Bool, ◌∷◌, List, Text, [], false}
use loommux.Logs.{append, LineLog}
use loommux.Logs.Lines.{join_lines}
use loommux.Prelude.Decimal.{decimal}

pub record ExecutionLogs : Type 0 where
  pub combined : LineLog
  pub stdout : LineLog
  pub stderr : LineLog
  pub result : LineLog
  pub traceback : LineLog

unfoldable pub append_stdout : ExecutionLogs → Text → ExecutionLogs
append_stdout l t = record l { stdout = append l.stdout t; combined = append l.combined t }

unfoldable pub append_stderr : ExecutionLogs → Text → ExecutionLogs
append_stderr l t = record l { stderr = append l.stderr t; combined = append l.combined t }

-- `text.endswith("\n")`.
abbrev pub ends_newline : Text → Bool
ends_newline [] = false
ends_newline (c ∷ []) = c == 0x0a
ends_newline (c ∷ d ∷ t) = ends_newline (d ∷ t)

abbrev pub terminated : Text → Text
terminated t = if ends_newline t then t else t ++ 0x0a ∷ []

-- append_result: `_prefix_first_line` puts its prefix before the text, which is not empty.
unfoldable pub append_result : ExecutionLogs → Text → ℕ → ExecutionLogs
append_result l [] execution = l
append_result l (c ∷ t) execution = record l {
  result = append l.result (terminated (c ∷ t));
  combined =
      append l.combined (codes "Out[" ++ decimal execution ++ codes "]: " ++ terminated (c ∷ t));
}

abbrev traceback_text : Text → Text
traceback_text [] = []
traceback_text (c ∷ t) = terminated (c ∷ t)

unfoldable pub append_traceback : ExecutionLogs → List Text → Text × ExecutionLogs
append_traceback l lines =
    let value = traceback_text (join_lines lines) in
    (value, record l { traceback = append l.traceback value; combined = append l.combined value })
