-- ===== src/Session/Reach.antt =====
-- session.py: the calls in any order keep the numbering.
use loommux.Session.{
  forget_records, close_session, begin_restart, accept_cell, take_notices_of, on_kernel_exit,
  on_execution_idle, Session,
}
use loommux.Session.Numbers.{accept_cell-IsSession, IsSession}
use loommux.Prelude.Dict.{get}
use loommux.Prelude.{
  subst, [], false, ◌+◌, Bool-cases, List, Text, Bool, Option, refl, none, nat_eq, arith, ◌≡◌, ℕ,
  inr, inl, true,
}
use loommux.Session.Notices.{take_all_notices}
use loommux.Execution.{Execution}
use loommux.Prelude.Result.{ok}
use loommux.Session.Calls.{
  submit_fails, start_attempts, start_kernel, start_workspace, replace_kernel, session_status,
  replace_interrupted, interrupt_cell,
}
use loommux.Session.Renumber.{
  submit_fails-Renumbers, take_from-Renumbers, take_notices_of-Renumbers, replace_kernel-Renumbers,
  interrupt_cell-Renumbers, session_status-Renumbers, on_kernel_exit-Renumbers,
  on_execution_idle-Renumbers, close_session-Renumbers, Renumbers-IsSession,
}

-- One call on a session, or one report of its kernel.
pub data SessionStep : Session → Session → Type 0 where
  accepts :
      {s t : Session} (fresh : ℕ → Execution) (alive : Bool)
      → accept_cell fresh s alive ≡ ok t
      → SessionStep s t
  fails :
      {s : Session} (held : Option ℕ) (name value : Text)
      → SessionStep s (submit_fails s held name value)
  restarts : {s t : Session} (e : Option Execution) → begin_restart s ≡ ok (e, t) → SessionStep s t
  replaces :
      {s t : Session} (e x : Execution) (same_kernel : Bool)
      → replace_interrupted s e same_kernel ≡ ok (x, t)
      → SessionStep s t
  closes : {s : Session} → SessionStep s (close_session s)
  idles : {s : Session} (n : ℕ) → SessionStep s (on_execution_idle s n)
  exits : {s : Session} (n : Option ℕ) (detail : Text) → SessionStep s (on_kernel_exit s n detail)
  looks :
      {s : Session} (alive : Bool) (detail : Text) → SessionStep s (session_status s alive detail).1
  interrupts : {s : Session} (alive : Bool) → SessionStep s (interrupt_cell s alive).1
  started :
      {s : Session} (outcomes : List Bool) (notices : List Text)
      → SessionStep s (replace_kernel s outcomes notices).1
  begins :
      {s : Session} (outcomes : List Bool) (notices : List Text)
      → SessionStep s (start_workspace s outcomes notices).1
  hears : {s : Session} (n : ℕ) → SessionStep s (take_notices_of s n).1
  hears_all : {s : Session} → SessionStep s (take_all_notices s).1

-- A session whose records are forgotten is numbered from one.
forgotten : (s : Session) → s.current_execution ≡ none → IsSession (forget_records s)
unfolding forget_records get
forgotten s h = record {
  numbers = λ n e g. absurd (ground arith);
  numbered = λ n low high. absurd (omega arith);
  next_pos = omega arith;
  current = λ n g. absurd (ground arith);
  recent = λ n g. absurd (ground arith);
}

start_workspace-IsSession :
    (s : Session) (outcomes : List Bool) (notices : List Text)
    → IsSession s
    → IsSession (start_workspace s outcomes notices).1
unfolding start_workspace start_kernel get
start_workspace-IsSession s outcomes notices v = elim (Bool-cases (start_attempts outcomes 2)) [
  | inl h ↦ rw h (record {
    numbers = λ n e g. absurd (ground arith);
    numbered = λ n low high. absurd (omega arith);
    next_pos = omega arith;
    current = λ n g. absurd (ground arith);
    recent = λ n g. absurd (ground arith);
  })
  | inr h ↦ rw h (record {
    numbers = v.numbers;
    numbered = v.numbered;
    next_pos = v.next_pos;
    current = λ n g. absurd (ground arith);
    recent = v.recent;
  })
]

detached : Session → Session
detached s = record s { has_kernel = false; kernel_restarting = true; current_execution = none }

begin_restart-forgets :
    (s t : Session) (e : Option Execution)
    → begin_restart s ≡ ok (e, t)
    → forget_records (detached s) ≡ t
unfolding begin_restart forget_records detached
begin_restart-forgets s t e h = ground arith

replace_interrupted-forgets :
    (s t : Session) (e x : Execution) (same_kernel : Bool)
    → replace_interrupted s e same_kernel ≡ ok (x, t)
    → forget_records (detached s) ≡ t
unfolding replace_interrupted forget_records detached
replace_interrupted-forgets s t e x same_kernel h = ground arith

-- Whatever calls come, and whatever the kernel reports between them: the records have the numbers from
-- one up to the next, all of them and no other, and the current and the recent cell are among them.
pub step-IsSession : (s t : Session) → SessionStep s t → IsSession s → IsSession t
unfolding take_all_notices detached
step-IsSession s t (accepts fresh alive h) v = (accept_cell-IsSession fresh s t alive v h).0
step-IsSession s t (fails held name value) v =
    Renumbers-IsSession s _ (submit_fails-Renumbers s held name value) v
step-IsSession s t (restarts e h) v =
    subst IsSession (begin_restart-forgets s t e h) (forgotten (detached s) refl)
step-IsSession s t (replaces e x same_kernel h) v =
    subst IsSession (replace_interrupted-forgets s t e x same_kernel h)
      (forgotten (detached s) refl)
step-IsSession s t closes v = Renumbers-IsSession s _ (close_session-Renumbers s) v
step-IsSession s t (idles n) v = Renumbers-IsSession s _ (on_execution_idle-Renumbers s n) v
step-IsSession s t (exits n detail) v =
    Renumbers-IsSession s _ (on_kernel_exit-Renumbers s n detail) v
step-IsSession s t (looks alive detail) v =
    Renumbers-IsSession s _ (session_status-Renumbers s alive detail) v
step-IsSession s t (interrupts alive) v =
    Renumbers-IsSession s _ (interrupt_cell-Renumbers s alive) v
step-IsSession s t (started outcomes notices) v =
    Renumbers-IsSession s _ (replace_kernel-Renumbers s outcomes notices) v
step-IsSession s t (begins outcomes notices) v = start_workspace-IsSession s outcomes notices v
step-IsSession s t (hears n) v = Renumbers-IsSession s _ (take_notices_of-Renumbers s n) v
step-IsSession s t hears_all v =
    let s' : Session = record s { startup_notices = [] } in
    let loop = take_from-Renumbers s.next_execution s' (s.noticed_through + 1) in
    Renumbers-IsSession s _
      (record {
        same_has = loop.same_has;
        same_next = loop.same_next;
        same_current = loop.same_current;
        same_recent = loop.same_recent;
      })
      v
