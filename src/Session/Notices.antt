-- ===== src/Session/Notices.antt =====
-- session.py: the notices of all cells, each handed out once.
pub mod Once
use loommux.Session.{Session}
use loommux.Execution.{take_notices, Execution}
use loommux.Prelude.{
  nat_eq, if◌then◌else◌, ◌++◌, map, ◌+◌, Text, List, Option, ℕ, [], suc, zero, some, none,
}
use loommux.Prelude.Dict.{put, get}

-- A notice, with the cell that spoke it, or none for a startup file.
pub record Notice : Type 0 where
  pub execution : Option ℕ
  pub text : Text

abbrev pub said_by : Option ℕ → Text → Notice
said_by n t = record { execution = n; text = t }

-- The loop of take_notices, from a number on: it stops at a cell that has not said its last.
unfoldable pub take_from : ℕ → Session → ℕ → List Notice × Session
take_from zero s number = ([], s)
take_from (suc fuel) s number = elim (get s.executions number) [
  | none ↦ ([], s)
  | some e ↦
      let (texts, e') = take_notices e in
      let taken = map (said_by (some number)) texts in
      let s' : Session = record s { executions = put s.executions number e' } in
      let (more, s'') = take_from fuel (record s' { noticed_through = number }) (number + 1) in
      if e'.notices_finished then (taken ++ more, s'') else (taken, s')
]

-- take_notices: no cell has a number from the next one on, so the loop makes no more rounds.
unfoldable pub take_all_notices : Session → List Notice × Session
unfolding take_from
take_all_notices s =
    let (taken, s') =
      take_from s.next_execution (record s { startup_notices = [] }) (s.noticed_through + 1) in
    (map (said_by none) s.startup_notices ++ taken, s')
