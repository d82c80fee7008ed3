-- ===== src/Kernel/Interrupts.antt =====
-- kernel/session.py: an interrupt of a cell that has not started.
use loommux.Kernel.{
  same_id_self, started_by, ends_cell, notice_in, plain_text, KernelSession, Message,
  MessageContent, execute_input, idle, other_message, stream, execute_result, display_data,
  error_message, stdout_stream, stderr_stream, other_stream, Effect, signal, interrupt,
  handle_message, recorded, same_id,
}
use loommux.Execution.{
  append_display_data, record_error, append_notice, cell_result, cell_stderr, Execution,
  cell_stdout, noted,
}
use loommux.Prelude.{
  sym, if◌then◌else◌, Bool-cases, subst, text_is_eq, codes, ◌||◌, ◌&&◌, Option-cases, ◌∙◌, Option,
  arith, inr, inl, some, none, ◌++◌, ◌∷◌, ◌≡◌, List, Text, Bool, [], false, true, refl,
}
use loommux.Execution.Events.{Value}
use loommux.Prelude.Dict.{get, Dict}
use loommux.Prelude.Lists.{All}

abbrev is_start : MessageContent → Bool
is_start execute_input = true
is_start _ = false

-- The message with which the kernel starts the cell of a request.
abbrev pub start_of : Option Text → Message
start_of request = record { parent = request; content = execute_input }

module _ (to_str : Value → Text) where
  -- The messages of the collector, one after the other, with the effects.
  pub handle_all : KernelSession → List Message → KernelSession × List Effect
  handle_all s [] = (s, [])
  handle_all s (m ∷ ms) =
      let (s', effects, found) = handle_message to_str s m in
      let (s'', more) = handle_all s' ms in (s'', effects ++ more)

  noted-msg_id : (e : Execution) (t : Text) → (noted e t).msg_id ≡ e.msg_id
  unfolding noted
  noted-msg_id e [] = refl
  noted-msg_id e (c ∷ t) = refl

  display-msg_id :
      (e : Execution) (bundle metadata : Option (Dict Text Value))
      → (append_display_data e bundle metadata).msg_id ≡ e.msg_id
  unfolding append_display_data
  display-msg_id e none metadata = refl
  display-msg_id e (some bundle) metadata = refl

  notice-msg_id : (e : Execution) (t : Text) → (append_notice e t).msg_id ≡ e.msg_id
  unfolding append_notice
  notice-msg_id e t = ground arith

  plain-msg_id :
      (e : Execution) (bundle : Option (Dict Text Value))
      → (plain_text to_str e bundle).msg_id ≡ e.msg_id
  unfolding plain_text cell_result
  plain-msg_id e none = refl
  plain-msg_id e (some bundle) = elim (Option-cases (get bundle (codes "text/plain"))) [
    | inl h ↦ rw (plain_text, h) refl
    | inr (v, h) ↦ rw (plain_text, h) (noted-msg_id _ _)
  ]

  -- What a message records does not change which request the record answers.
  recorded-msg_id : (e : Execution) (c : MessageContent) → (recorded to_str e c).msg_id ≡ e.msg_id
  unfolding recorded cell_stdout cell_stderr record_error
  recorded-msg_id e (stream stdout_stream t) = noted-msg_id _ _
  recorded-msg_id e (stream stderr_stream t) = noted-msg_id _ _
  recorded-msg_id e (stream other_stream t) = refl
  recorded-msg_id e (execute_result bundle metadata) =
      display-msg_id _ bundle metadata ∙ plain-msg_id e bundle
  recorded-msg_id e (display_data bundle metadata) = elim (Option-cases (notice_in to_str bundle)) [
    | inl h ↦ rw (recorded, h) (display-msg_id _ bundle metadata ∙ plain-msg_id e bundle)
    | inr (t, h) ↦ rw (recorded, h) (notice-msg_id e t)
  ]
  recorded-msg_id e (error_message ename evalue traceback) = noted-msg_id _ _
  recorded-msg_id e execute_input = refl
  recorded-msg_id e idle = refl
  recorded-msg_id e other_message = refl

  -- A message that neither starts the cell with this request nor ends it.
  abbrev pub IsOther : Option Text → Message → Type 0
  IsOther request m =
      (same_id m.parent request && (is_start m.content || ends_cell m.content)) ≡ false

  -- The cell waits to start, with an interrupt held for it.
  record IsHeld (request : Option Text) (s : KernelSession) : Type 0 where
    current : Execution
    is_current : s.current_execution ≡ some current
    is_request : current.msg_id ≡ request
    not_started : s.started ≡ false
    held : s.interrupt_on_start ≡ true

  handle_message-foreign :
      (s : KernelSession) (m : Message) (e : Execution)
      → s.current_execution ≡ some e
      → same_id m.parent e.msg_id ≡ false
      → handle_message to_str s m ≡ (s, [], none)
  unfolding handle_message
  handle_message-foreign s m e h f = ground arith

  handle_message-own :
      (s : KernelSession) (m : Message) (e : Execution)
      → s.current_execution ≡ some e
      → same_id m.parent e.msg_id ≡ true
      → handle_message to_str s m ≡ (
        record (started_by s m.content).0 {
          current_execution = some (recorded to_str e m.content);
        },
        (started_by s m.content).1,
        if ends_cell m.content then some (e.msg_id, s.interrupt_sent) else none,
      )
  unfolding handle_message
  handle_message-own s m e h f = ground arith

  started_by-other :
      (s : KernelSession) (c : MessageContent) → is_start c ≡ false → started_by s c ≡ (s, [])
  started_by-other s execute_input o = cc
  started_by-other s _ o = refl

  handle_message-IsHeld :
      (request : Option Text) (s : KernelSession) (m : Message)
      → IsHeld request s
      → IsOther request m
      → IsHeld request (handle_message to_str s m).0 × ((handle_message to_str s m).1 ≡ [])
  handle_message-IsHeld request s m h o = elim (Bool-cases (same_id m.parent h.current.msg_id)) [
    | inr f ↦ rw (handle_message-foreign s m h.current h.is_current f) (h, refl)
    | inl f ↦
        let o' : IsOther h.current.msg_id m = subst (λ r. IsOther r m) (sym h.is_request) o in
        let same = started_by-other s m.content (ground arith) in
        rw (handle_message-own s m h.current h.is_current f) (
          rw same (
            record {
              current = recorded to_str h.current m.content;
              is_current = refl;
              is_request = recorded-msg_id h.current m.content ∙ h.is_request;
              not_started = h.not_started;
              held = h.held;
            },
            refl,
          ))
  ]

  handle_all-IsHeld :
      (request : Option Text) (s : KernelSession) (ms : List Message)
      → IsHeld request s
      → All (IsOther request) ms
      → IsHeld request (handle_all s ms).0 × ((handle_all s ms).1 ≡ [])
  unfolding handle_all
  handle_all-IsHeld request s [] h o = (h, refl)
  handle_all-IsHeld request s (m ∷ ms) h o =
      let (h', quiet) = handle_message-IsHeld request s m h o.0 in
      let (h'', quiet') = handle_all-IsHeld request (handle_message to_str s m).0 ms h' o.1 in
      (h'', rw (quiet, quiet') refl)

  handle_message-start :
      (request : Option Text) (s : KernelSession)
      → IsHeld request s
      → let (s', effects, found) = handle_message to_str s (start_of request) in
        (effects ≡ signal ∷ [])
        × (s'.started ≡ true)
        × (s'.interrupt_on_start ≡ false)
        × (s'.interrupt_sent ≡ true)
  handle_message-start request s h =
      let same = subst (λ r. same_id r h.current.msg_id ≡ true) h.is_request (same_id_self _) in
      rw (handle_message-own s (start_of request) h.current h.is_current same)
        (rw (h.held) (refl, refl, refl, ground arith))

  -- An interrupt of a cell that the kernel has not started sends no signal then. Whatever messages come
  -- next that neither start nor end the cell, none is sent for them; the message that starts the cell
  -- sends one, and only one is owed.
  pub interrupt-held :
      (s : KernelSession) (e : Execution) (ms : List Message)
      → s.current_execution ≡ some e
      → s.started ≡ false
      → All (IsOther e.msg_id) ms
      → let (s', now) = interrupt s in
        let (s'', later) = handle_all s' ms in
        let (t, effects, found) = handle_message to_str s'' (start_of e.msg_id) in
        (now ++ later ≡ [])
        × (effects ≡ signal ∷ [])
        × (t.started ≡ true)
        × (t.interrupt_on_start ≡ false)
        × (t.interrupt_sent ≡ true)
  unfolding interrupt
  interrupt-held s e ms c n o =
      let held : IsHeld e.msg_id (record s { interrupt_on_start = true }) = record {
        current = e;
        is_current = c;
        is_request = refl;
        not_started = n;
        held = refl;
      } in
      let (held', quiet) = handle_all-IsHeld e.msg_id _ ms held o in
      let now : interrupt s ≡ (record s { interrupt_on_start = true }, []) = ground arith in
      let (sends, starts, cleared, sent) = handle_message-start e.msg_id _ held' in
      rw now (quiet, sends, starts, cleared, sent)
