-- ===== src/Kernel/Requests.antt =====
-- kernel/session.py: a record keeps the id of its request, so what is told of a cell is of its request.
use loommux.Kernel.{
  interrupted_before_start, other_stream, stderr_stream, stdout_stream, other_message, idle,
  execute_input, error_message, notice_in, display_data, execute_result, stream, MessageContent,
  plain_text, recorded, never_ran, paged,
}
use loommux.Execution.Events.{Value}
use loommux.Prelude.{
  ◌++◌, text_is_eq, codes, ◌∙◌, arith, ◌∷◌, Option-cases, Bool, List, ◌≡◌, Option, Text, [], inr,
  inl, false, true, refl, some, none,
}
use loommux.Execution.{
  append_display_data, cell_result, noted, cell_stderr, finish_cell, record_error, append_notice,
  cell_stdout, Execution,
}
use loommux.Prelude.Dict.{get, Dict}
use loommux.Terminal.{normalize}

noted-msg_id : (e : Execution) (t : Text) → (noted e t).msg_id ≡ e.msg_id
unfolding noted
noted-msg_id e [] = refl
noted-msg_id e (c ∷ t) = refl

cell_stdout-msg_id : (e : Execution) (t : Text) → (cell_stdout e t).msg_id ≡ e.msg_id
unfolding cell_stdout
cell_stdout-msg_id e t = noted-msg_id _ (normalize e.stdout_normalizer t).1

cell_stderr-msg_id : (e : Execution) (t : Text) → (cell_stderr e t).msg_id ≡ e.msg_id
unfolding cell_stderr
cell_stderr-msg_id e t = noted-msg_id _ (normalize e.stderr_normalizer t).1

cell_result-msg_id : (e : Execution) (t : Text) → (cell_result e t).msg_id ≡ e.msg_id
unfolding cell_result
cell_result-msg_id e t = noted-msg_id _ (normalize e.result_normalizer t).1

record_error-msg_id :
    (e : Execution) (ename evalue : Text) (traceback : List Text)
    → (record_error e ename evalue traceback).msg_id ≡ e.msg_id
unfolding record_error
record_error-msg_id e ename evalue traceback = noted-msg_id _ _

append_notice-msg_id : (e : Execution) (t : Text) → (append_notice e t).msg_id ≡ e.msg_id
unfolding append_notice
append_notice-msg_id e t = ground arith

append_display_data-msg_id :
    (e : Execution) (bundle metadata : Option (Dict Text Value))
    → (append_display_data e bundle metadata).msg_id ≡ e.msg_id
unfolding append_display_data
append_display_data-msg_id e none metadata = refl
append_display_data-msg_id e (some bundle) metadata = refl

module _ (to_str : Value → Text) where
  plain_text-msg_id :
      (e : Execution) (bundle : Option (Dict Text Value))
      → (plain_text to_str e bundle).msg_id ≡ e.msg_id
  unfolding plain_text
  plain_text-msg_id e none = refl
  plain_text-msg_id e (some bundle) = elim (Option-cases (get bundle (codes "text/plain"))) [
    | inl h ↦ rw (plain_text, h) refl
    | inr (v, h) ↦ rw (plain_text, h) (cell_result-msg_id e (to_str v))
  ]

  shown-msg_id :
      (e : Execution) (bundle metadata : Option (Dict Text Value))
      → (append_display_data (plain_text to_str e bundle) bundle metadata).msg_id ≡ e.msg_id
  shown-msg_id e bundle metadata =
      append_display_data-msg_id (plain_text to_str e bundle) bundle metadata
      ∙ plain_text-msg_id e bundle

  pub recorded-msg_id :
      (e : Execution) (c : MessageContent) → (recorded to_str e c).msg_id ≡ e.msg_id
  unfolding recorded
  recorded-msg_id e execute_input = refl
  recorded-msg_id e idle = refl
  recorded-msg_id e other_message = refl
  recorded-msg_id e (stream stdout_stream t) = cell_stdout-msg_id e t
  recorded-msg_id e (stream stderr_stream t) = cell_stderr-msg_id e t
  recorded-msg_id e (stream other_stream t) = refl
  recorded-msg_id e (execute_result bundle metadata) = shown-msg_id e bundle metadata
  recorded-msg_id e (display_data bundle metadata) = elim (Option-cases (notice_in to_str bundle)) [
    | inl h ↦ rw (recorded, h) (shown-msg_id e bundle metadata)
    | inr (t, h) ↦ rw (recorded, h) (append_notice-msg_id e t)
  ]
  recorded-msg_id e (error_message ename evalue traceback) =
      record_error-msg_id e ename evalue traceback

paged-msg_id : (e : Execution) (page : Option Text) → (paged e page).msg_id ≡ e.msg_id
paged-msg_id e none = refl
paged-msg_id e (some []) = refl
paged-msg_id e (some (c ∷ t)) = cell_stdout-msg_id e (c ∷ t)

never_ran-msg_id :
    (e : Execution) (page : Option Text) (sent : Bool) → (never_ran e page sent).msg_id ≡ e.msg_id
never_ran-msg_id e none true = elim (Option-cases e.error) [
  | inl h ↦ rw h (
      record_error-msg_id (record e { error = none }) (codes "KeyboardInterrupt")
        interrupted_before_start ((codes "KeyboardInterrupt: " ++ interrupted_before_start) ∷ []))
  | inr (f, h) ↦ rw h refl
]
never_ran-msg_id e none false = refl
never_ran-msg_id e (some page) sent = refl

pub ended-msg_id :
    (e : Execution) (page : Option Text) (sent : Bool)
    → (finish_cell (never_ran (paged e page) page sent)).msg_id ≡ e.msg_id
unfolding finish_cell
ended-msg_id e page sent = never_ran-msg_id (paged e page) page sent ∙ paged-msg_id e page
