-- ===== src/Examples/Kernels.antt =====
-- Tests of the bridge to a kernel.
use loommux.Execution.{Execution, running, interrupted, completed}
use loommux.Execution.Events.{Value}
use loommux.Kernel.{
  same_id, KernelSession, signal, on_idle, Message, stream, stdout_stream, idle, interrupt,
  handle_message, finish_execution,
}
use loommux.Kernel.Interrupts.{handle_all, start_of, interrupt-held}
use loommux.Kernel.Outcomes.{finish_execution-interrupted}
use loommux.Kernel.Steps.{
  Answered, Bridge, Event, submitted, interrupted, message, replied, found_dead, run, exits, idles,
  submits, exits_left, held, run-once,
}
use loommux.Examples.Output.{cell}
use loommux.Prelude.{
  ◌++◌, ◌≤◌, ◌≡◌, ◌∷◌, Text, ◌+◌, text_eq, codes, List, [], false, true, refl, some, none,
}

abbrev printed : Value → Text
printed v = codes "value"

-- A cell that was submitted and interrupted.
abbrev waiting_cell : Execution
waiting_cell = record cell { status = running; interrupt_requested = true }

abbrev waiting_kernel : KernelSession
waiting_kernel = record {
  has_client = true;
  current_execution = some waiting_cell;
  started = false;
  interrupt_on_start = false;
  interrupt_sent = false;
  collector_stopped = false;
  exit_notified = false;
}

-- Output of another request.
abbrev stray : Message
stray = record { parent = some (codes "m0"); content = stream stdout_stream (codes "late") }

interrupt-held_example :
    let (s', now) = interrupt waiting_kernel in
    let (s'', later) = handle_all printed s' (stray ∷ []) in
    let (t, effects, found) = handle_message printed s'' (start_of (some (codes "m1"))) in
    (now ++ later ≡ [])
    × (effects ≡ signal ∷ [])
    × (t.started ≡ true)
    × (t.interrupt_on_start ≡ false)
    × (t.interrupt_sent ≡ true)
unfolding text_eq same_id
interrupt-held_example =
    interrupt-held printed waiting_kernel waiting_cell (stray ∷ []) refl refl (refl, tt)

finish_execution-interrupted_example :
    ((x : Execution) × (finish_execution waiting_kernel (some (codes "m1")) true none
        ≡ (record waiting_kernel { current_execution = none }, on_idle x ∷ []))
      × (x.status ≡ interrupted))
    × ((x : Execution) × (finish_execution waiting_kernel
            (some (codes "m1"))
            true
            (some (codes "help"))
          ≡ (record waiting_kernel { current_execution = none }, on_idle x ∷ []))
        × (x.status ≡ completed))
finish_execution-interrupted_example =
    finish_execution-interrupted waiting_kernel waiting_cell (codes "help") refl refl refl refl refl

abbrev bridge : Bridge
bridge = record { session = waiting_kernel; reading = none }

abbrev events : List Event
events =
    message (start_of (some (codes "m1")))
    ∷ message (record { parent = some (codes "m1"); content = idle })
    ∷ replied []
    ∷ submitted waiting_cell (codes "m2")
    ∷ found_dead
    ∷ found_dead
    ∷ []

run-once_example :
    (exits (run printed bridge events).effects + exits_left (run printed bridge events).bridge ≤ 1)
    × ((t : Text)
        → idles t (run printed bridge events).effects
            + held t (run printed bridge events).bridge.session
          ≤ held t waiting_kernel + submits t events)
    × Answered printed bridge events
run-once_example = run-once printed bridge events
