-- ===== src/Kernel/Outcomes.antt =====
-- kernel/session.py: how a cell that was interrupted ends.
use loommux.Prelude.{◌∙◌, arith, Bool, ◌∷◌, [], text_eq, ◌≡◌, Text, Option, true, refl, some, none}
use loommux.Kernel.{same_id_self, paged, on_idle, finish_execution, KernelSession, never_ran}
use loommux.Terminal.{is_plain_text, consume, normalize, text}
use loommux.Execution.{
  running, completed, cell_stdout, Execution, normalize_lines, final_status, finish_cell, noted,
  record_error, interrupted,
}
use loommux.Logs.Projections.{append_traceback}
use loommux.Logs.Lines.{join_lines}

interrupted_error :
    (e : Execution)
    → e.traceback_normalizer ≡ text
    → e.error ≡ none
    → e.interrupt_requested ≡ true
    → (finish_cell (never_ran e none true)).status ≡ interrupted
unfolding record_error noted finish_cell final_status normalize consume text_eq append_traceback
    join_lines normalize_lines is_plain_text
interrupted_error e n h r = rw (n, h, r) refl

noted-status : (e : Execution) (t : Text) → (noted e t).status ≡ e.status
unfolding noted
noted-status e [] = refl
noted-status e (c ∷ t) = refl

paged-status : (e : Execution) (page : Option Text) → (paged e page).status ≡ e.status
unfolding cell_stdout
paged-status e none = refl
paged-status e (some []) = refl
paged-status e (some (c ∷ t)) = noted-status _ _

finish_cell-completed : (e : Execution) → e.status ≡ running → (finish_cell e).status ≡ completed
unfolding finish_cell final_status
finish_cell-completed e h = rw h refl

abbrev released : KernelSession → KernelSession
released s = record s { current_execution = none }

finish_execution-own :
    (s : KernelSession) (e : Execution) (sent : Bool) (page : Option Text)
    → s.current_execution ≡ some e
    → finish_execution s e.msg_id sent page
      ≡ (released s, on_idle (finish_cell (never_ran (paged e page) page sent)) ∷ [])
unfolding finish_execution
finish_execution-own s e sent page h = ground (arith, same_id_self e.msg_id)

-- A cell that was interrupted as it started and has shown no error: where no reply comes for it, its
-- code never ran, and it ends as interrupted; where a reply comes, its code ran to the end, and it
-- ends as completed. Either way the kernel is free and the cell is reported idle.
pub finish_execution-interrupted :
    (s : KernelSession) (e : Execution) (page : Text)
    → s.current_execution ≡ some e
    → e.status ≡ running
    → e.error ≡ none
    → e.interrupt_requested ≡ true
    → e.traceback_normalizer ≡ text
    → ((x : Execution) × (finish_execution s e.msg_id true none ≡ (released s, on_idle x ∷ []))
        × (x.status ≡ interrupted))
      × ((x : Execution) × (finish_execution s e.msg_id true (some page)
            ≡ (released s, on_idle x ∷ []))
          × (x.status ≡ completed))
finish_execution-interrupted s e page c r h i n = (
  (_, finish_execution-own s e true none c, interrupted_error e n h i),
  (
    _,
    finish_execution-own s e true (some page) c,
    finish_cell-completed _ (paged-status e (some page) ∙ r),
  ),
)
