-- ===== src/Kernel/Steps.antt =====
-- kernel/session.py: its steps in any order. The collector takes a message, or finds the process dead,
-- only while it waits for no reply; the session's calls may come at any time.
use loommux.Prelude.{
  ap, Option-cases, text_eq, inr, inl, false, ◌&&◌, not, refl, ◌≤◌, arith, ◌+◌, Bool, Text, ◌≡◌,
  if◌then◌else◌, ◌++◌, List, Option, ℕ, [], suc, true, some, none, ◌∷◌,
}
use loommux.Kernel.{
  paged, never_ran, other_message, idle, execute_input, error_message, display_data, execute_result,
  stream, started_by, MessageContent, same_id, KernelSession, Message, Effect, signal, interrupt,
  handle_message, finish_execution, on_idle, on_exit, submit, shutdown, notify_kernel_exit, Reply,
  read_reply,
}
use loommux.Execution.Events.{Value}
use loommux.Execution.{final_status, finish_cell, Execution, is_running}
use loommux.Kernel.Requests.{recorded-msg_id, ended-msg_id}

-- The session with the kernel, and the cell whose reply the collector waits for.
pub record Bridge : Type 0 where
  pub session : KernelSession
  pub reading : Option (Option Text × Bool)

pub data Event : Type 0 where
  submitted : Execution → Text → Event
  interrupted shut_down found_dead : Event
  message : Message → Event
  replied : List Reply → Event

pub record Outcome : Type 0 where
  pub bridge : Bridge
  pub effects : List Effect

module _ (to_str : Value → Text) where
  pub step : Bridge → Event → Outcome
  step b (submitted e request) = elim (submit b.session e request) [
    | none ↦ record { bridge = b; effects = [] }
    | some s ↦ record { bridge = record b { session = s }; effects = [] }
  ]
  step b interrupted =
      let (s, effects) = interrupt b.session in
      record { bridge = record b { session = s }; effects = effects }
  step b shut_down = record {
    bridge = record b { session = (shutdown true b.session).0 };
    effects = [];
  }
  step b found_dead = elim b.reading [
    | some r ↦ record { bridge = b; effects = [] }
    | none ↦
        let (s, effects) = notify_kernel_exit b.session in
        record { bridge = record b { session = s }; effects = effects }
  ]
  step b (message m) = elim b.reading [
    | some r ↦ record { bridge = b; effects = [] }
    | none ↦
        let (s, effects, found) = handle_message to_str b.session m in
        record { bridge = record { session = s; reading = found }; effects = effects }
  ]
  step b (replied replies) = elim b.reading [
    | none ↦ record { bridge = b; effects = [] }
    | some (request, sent) ↦
        let (s, effects) = finish_execution b.session request sent (read_reply request replies) in
        record { bridge = record { session = s; reading = none }; effects = effects }
  ]

  pub run : Bridge → List Event → Outcome
  run b [] = record { bridge = b; effects = [] }
  run b (e ∷ es) =
      let first = step b e in
      let rest = run first.bridge es in
      record { bridge = rest.bridge; effects = first.effects ++ rest.effects }

-- Whether a record is of the request with this id.
abbrev pub asked : Text → Execution → ℕ
asked t e = if same_id e.msg_id (some t) then 1 else 0

pub exits : List Effect → ℕ
exits [] = 0
exits (on_exit e ∷ es) = suc (exits es)
exits (on_idle e ∷ es) = exits es
exits (signal ∷ es) = exits es

-- The cells of a request that are reported idle.
pub idles : Text → List Effect → ℕ
idles t [] = 0
idles t (on_idle e ∷ es) = asked t e + idles t es
idles t (on_exit e ∷ es) = idles t es
idles t (signal ∷ es) = idles t es

abbrev submits_of : Text → Event → ℕ
submits_of t (submitted e request) = if text_eq request t then 1 else 0
submits_of t _ = 0

pub submits : Text → List Event → ℕ
submits t [] = 0
submits t (e ∷ es) = submits_of t e + submits t es

exits-append : (xs ys : List Effect) → exits (xs ++ ys) ≡ exits xs + exits ys
unfolding exits
exits-append [] ys = omega arith
exits-append (on_exit e ∷ xs) ys = omega (arith, exits-append xs ys)
exits-append (on_idle e ∷ xs) ys = exits-append xs ys
exits-append (signal ∷ xs) ys = exits-append xs ys

idles-append : (t : Text) (xs ys : List Effect) → idles t (xs ++ ys) ≡ idles t xs + idles t ys
unfolding idles
idles-append t [] ys = omega arith
idles-append t (on_idle e ∷ xs) ys = omega (arith, idles-append t xs ys)
idles-append t (on_exit e ∷ xs) ys = idles-append t xs ys
idles-append t (signal ∷ xs) ys = idles-append t xs ys

-- A cell is reported idle only where the collector waits for the reply to its request, and has ended.
abbrev pub is_answer : Option (Option Text × Bool) → Effect → Bool
is_answer none (on_idle e) = false
is_answer (some (request, sent)) (on_idle e) =
    same_id e.msg_id request && (not (is_running e) && e.done)
is_answer reading _ = true

abbrev pub answers : Option (Option Text × Bool) → List Effect → Bool
answers reading [] = true
answers reading (e ∷ es) = is_answer reading e && answers reading es

abbrev pub exits_left : Bridge → ℕ
exits_left b = if b.session.exit_notified then 0 else 1

abbrev pub held : Text → KernelSession → ℕ
held t s = elim s.current_execution [ none ↦ 0 | some e ↦ asked t e ]

module _ (to_str : Value → Text) where
  step-exits :
      (b : Bridge) (e : Event)
      → exits (step to_str b e).effects + exits_left (step to_str b e).bridge ≤ exits_left b
  unfolding step exits submit interrupt shutdown notify_kernel_exit handle_message finish_execution
  step-exits b e = ground arith

  -- What the steps of a run tell others, each by what the collector waits for then.
  pub Answered : Bridge → List Event → Type 0
  Answered b [] = Unit
  Answered b (e ∷ es) =
      (answers b.reading (step to_str b e).effects ≡ true) × Answered (step to_str b e).bridge es

  started_by-held :
      (t : Text) (s : KernelSession) (c : MessageContent) → idles t (started_by s c).1 ≡ 0
  unfolding idles
  started_by-held t s execute_input = ground arith
  started_by-held t s idle = refl
  started_by-held t s other_message = refl
  started_by-held t s (stream a b) = refl
  started_by-held t s (execute_result a b) = refl
  started_by-held t s (display_data a b) = refl
  started_by-held t s (error_message a b c) = refl

  handle_message-held :
      (t : Text) (s : KernelSession) (m : Message)
      → let (s', effects, found) = handle_message to_str s m in
        idles t effects + held t s' ≡ held t s
  unfolding handle_message idles
  handle_message-held t s m = elim (Option-cases s.current_execution) [
    | inl h ↦ ground arith
    | inr (e, h) ↦ ground (
      arith,
      started_by-held t s m.content,
      ap (λ i. same_id i (some t)) (recorded-msg_id to_str e m.content),
    )
  ]

  finish_execution-held :
      (t : Text) (s : KernelSession) (request : Option Text) (sent : Bool) (page : Option Text)
      → let (s', effects) = finish_execution s request sent page in
        idles t effects + held t s' ≡ held t s
  unfolding finish_execution idles
  finish_execution-held t s request sent page = elim (Option-cases s.current_execution) [
    | inl h ↦ ground arith
    | inr (e, h) ↦ ground (arith, ap (λ i. same_id i (some t)) (ended-msg_id e page sent))
  ]

  step-idles :
      (t : Text) (b : Bridge) (e : Event)
      → idles t (step to_str b e).effects + held t (step to_str b e).bridge.session
        ≤ held t b.session + submits_of t e
  unfolding step idles submit interrupt shutdown notify_kernel_exit same_id
  step-idles t b (submitted e request) = ground arith
  step-idles t b interrupted = ground arith
  step-idles t b shut_down = ground arith
  step-idles t b found_dead = ground arith
  step-idles t b (message m) = ground (arith, handle_message-held t b.session m)
  step-idles t b (replied replies) = elim (Option-cases b.reading) [
    | inl h ↦ ground arith
    | inr (r, h) ↦
        ground (arith, finish_execution-held t b.session r.0 r.1 (read_reply r.0 replies))
  ]

  ended : (e : Execution) → (not (is_running (finish_cell e)) && (finish_cell e).done) ≡ true
  unfolding is_running finish_cell final_status
  ended e = ground arith

  finish_execution-answers :
      (s : KernelSession) (request : Option Text) (sent : Bool) (page : Option Text)
      → answers (some (request, sent)) (finish_execution s request sent page).1 ≡ true
  unfolding finish_execution
  finish_execution-answers s request sent page = elim (Option-cases s.current_execution) [
    | inl h ↦ ground arith
    | inr (e, h) ↦ ground (
      arith,
      ap (λ i. same_id i request) (ended-msg_id e page sent),
      ended (never_ran (paged e page) page sent),
    )
  ]

  step-answers : (b : Bridge) (e : Event) → answers b.reading (step to_str b e).effects ≡ true
  unfolding step submit interrupt shutdown notify_kernel_exit handle_message finish_execution
      is_running finish_cell final_status
  step-answers b (submitted e request) = ground arith
  step-answers b interrupted = ground arith
  step-answers b shut_down = ground arith
  step-answers b found_dead = ground arith
  step-answers b (message m) = ground arith
  step-answers b (replied replies) = elim (Option-cases b.reading) [
    | inl h ↦ ground arith
    | inr (r, h) ↦
        rw (step, h) (finish_execution-answers b.session r.0 r.1 (read_reply r.0 replies))
  ]

  -- Whatever the session calls, the kernel sends and the order in which they come: the exit of the
  -- kernel is reported once at most; of a request, cells are reported idle at most as often as it was
  -- submitted or held; and a cell is reported idle only after the wait for the reply to its own request,
  -- and has ended.
  pub run-once :
      (b : Bridge) (es : List Event)
      → let r = run to_str b es in
        (exits r.effects + exits_left r.bridge ≤ exits_left b)
        × ((t : Text)
            → idles t r.effects + held t r.bridge.session ≤ held t b.session + submits t es)
        × Answered b es
  unfolding run exits idles submits Answered
  run-once b [] = (omega arith, (λ t. omega arith), tt)
  run-once b (e ∷ es) =
      let (x, i, a) = run-once (step to_str b e).bridge es in
      (
        omega (arith, exits-append (step to_str b e).effects _, step-exits b e),
        (λ t. omega (arith, idles-append t (step to_str b e).effects _, step-idles t b e, i t)),
        (step-answers b e, a),
      )
