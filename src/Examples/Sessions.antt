-- ===== src/Examples/Sessions.antt =====
-- Tests of the calls on a session.
use loommux.Session.{Session, accepted}
use loommux.Session.Numbers.{IsSession}
use loommux.Session.Reach.{accepts, step-IsSession}
use loommux.Session.Follow.{follow, grown, follow-whole}
use loommux.Session.Notices.{take_all_notices}
use loommux.Session.Notices.Once.{take_all_notices-twice}
use loommux.Session.Waiting.{Call, WaitReading, IsClock, IsReason, await, await-returns}
use loommux.Examples.Output.{
  cell, spoken, spoken-IsLog, opened_session, opened-IsSession, first_cell, cell-IsHanded,
}
use loommux.Logs.Since.{whole}
use loommux.Prelude.{nat_eq, subst, ◌≤◌, ◌++◌, codes, ◌≡◌, ℕ, arith, ◌∷◌, [], true, some}
use loommux.Prelude.Lists.{take}
use loommux.Prelude.Dict.{get}
use loommux.Execution.{Execution}
use loommux.Execution.Handout.{IsHanded}

step-IsSession_example : IsSession (accepted (λ n. cell) opened_session)
step-IsSession_example =
    step-IsSession opened_session (accepted (λ n. cell) opened_session)
      (accepts (λ n. cell) true first_cell) opened-IsSession

follow-whole_example :
    take 2 (whole spoken) ++ follow spoken 2 (codes "!" ∷ codes "?" ∷ [])
    ≡ whole (grown spoken (codes "!" ∷ codes "?" ∷ []))
follow-whole_example = follow-whole spoken 2 (codes "!" ∷ codes "?" ∷ []) spoken-IsLog (omega arith)

abbrev speaking : Session
speaking = record opened_session {
  executions = (1, cell) ∷ [];
  recent_execution = some 1;
  next_execution = 2;
  startup_notices = codes "ready" ∷ [];
}

speaking-IsSession : IsSession speaking
unfolding get
speaking-IsSession = record {
  numbered = λ n low high. ground arith;
  numbers = λ n e h. ground arith;
  next_pos = omega arith;
  current = λ n h. ground arith;
  recent = λ n h. ground arith;
}

speaking-IsHanded : (n : ℕ) (e : Execution) → get speaking.executions n ≡ some e → IsHanded e
unfolding get
speaking-IsHanded n e h = subst IsHanded (ground arith) cell-IsHanded

take_all_notices-twice_example : (take_all_notices (take_all_notices speaking).1).0 ≡ []
take_all_notices-twice_example =
    take_all_notices-twice speaking speaking-IsSession speaking-IsHanded

abbrev call : Call
call = record { deadline = 10; silence = 20; since = 0; poll = 1 }

abbrev busy_world : ℕ → WaitReading
busy_world n = record { is_running = true; now = n; last_output = n }

busy-IsClock : IsClock call busy_world
busy-IsClock = record { naps = λ n h. omega arith }

await-returns_example :
    (n : ℕ) × (n ≤ 10) × IsReason call (busy_world n) (await call busy_world 11 0)
await-returns_example = await-returns call busy_world 10 busy-IsClock (omega arith) (omega arith)
