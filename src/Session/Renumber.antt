-- ===== src/Session/Renumber.antt =====
-- session.py: calls that leave the numbers of the records as they are.
use loommux.Session.{close_session, take_notices_of, on_kernel_exit, on_execution_idle, Session}
use loommux.Session.Numbers.{IsSession}
use loommux.Prelude.Dict.{get-put, Dict, get, has, put}
use loommux.Prelude.{
  ◌+◌, Bool-cases, suc, zero, List, Text, Bool, Option, refl, none, ==_iff, is_some, Option-cases,
  nat_eq, ap, arith, ◌≡◌, ◌∙◌, ℕ, sym, inr, inl, true, some,
}
use loommux.Session.Notices.{take_from}
use loommux.Execution.{record_kernel_exit, take_notices, Execution}
use loommux.Session.Calls.{
  failed_record, failed_cell, submit_fails, start_kernel, exit_current, replace_kernel,
  session_status, interrupt_cell,
}

-- The records keep their numbers, and the current and the recent cell are as before or none.
pub record Renumbers (s t : Session) : Type 0 where
  pub same_has : (n : ℕ) → has t.executions n ≡ has s.executions n
  pub same_next : t.next_execution ≡ s.next_execution
  pub same_current : (n : ℕ) → t.current_execution ≡ some n → s.current_execution ≡ some n
  pub same_recent : t.recent_execution ≡ s.recent_execution

has-get : {A : Type 0} (d : Dict ℕ A) (n : ℕ) → has d n ≡ true → (a : A) × (get d n ≡ some a)
has-get d n h = elim (Option-cases (get d n)) [
  | inl e ↦ absurd (ground arith)
  | inr (a, e) ↦ (a, e)
]

pub Renumbers-IsSession : (s t : Session) → Renumbers s t → IsSession s → IsSession t
Renumbers-IsSession s t k v = record {
  numbers = λ n e h.
      let (a, found) = has-get s.executions n (sym (k.same_has n) ∙ ap is_some h) in
      let (low, high) = v.numbers n a found in (low, omega (arith, high, k.same_next));
  numbered = λ n low high. k.same_has n ∙ v.numbered n low (omega (arith, high, k.same_next));
  next_pos = omega (arith, k.same_next, v.next_pos);
  current = λ n h. k.same_has n ∙ v.current n (k.same_current n h);
  recent = λ n h. k.same_has n ∙ v.recent n (sym k.same_recent ∙ h);
}

put-has :
    {A : Type 0} (d : Dict ℕ A) (n m : ℕ) (a b : A) → get d n ≡ some a → has (put d n b) m ≡ has d m
put-has d n m a b h = ground (arith, get-put d n m b, ==_iff n m)

Renumbers-self : (s : Session) → Renumbers s s
Renumbers-self s = record {
  same_has = λ n. refl;
  same_next = refl;
  same_current = λ n h. h;
  same_recent = refl;
}

-- The record of a number that is there is replaced.
Renumbers-put :
    (s : Session) (n : ℕ) (e x : Execution)
    → get s.executions n ≡ some e
    → Renumbers s (record s { executions = put s.executions n x })
Renumbers-put s n e x h = record {
  same_has = λ m. put-has s.executions n m e x h;
  same_next = refl;
  same_current = λ m g. g;
  same_recent = refl;
}

pub on_execution_idle-Renumbers : (s : Session) (n : ℕ) → Renumbers s (on_execution_idle s n)
unfolding on_execution_idle
on_execution_idle-Renumbers s n = record {
  same_has = λ m. ground arith;
  same_next = ground arith;
  same_current = λ m g. ground arith;
  same_recent = ground arith;
}

Renumbers-then : (s t u : Session) → Renumbers s t → Renumbers t u → Renumbers s u
Renumbers-then s t u a b = record {
  same_has = λ n. b.same_has n ∙ a.same_has n;
  same_next = b.same_next ∙ a.same_next;
  same_current = λ n h. a.same_current n (b.same_current n h);
  same_recent = b.same_recent ∙ a.same_recent;
}

pub on_kernel_exit-Renumbers :
    (s : Session) (n : Option ℕ) (detail : Text) → Renumbers s (on_kernel_exit s n detail)
unfolding on_kernel_exit
on_kernel_exit-Renumbers s none detail = Renumbers-self s
on_kernel_exit-Renumbers s (some n) detail = elim (Option-cases (get s.executions n)) [
  | inl h ↦ rw (on_kernel_exit, h) (on_execution_idle-Renumbers s n)
  | inr (e, h) ↦
      rw (on_kernel_exit, h)
        (Renumbers-then s _ _ (Renumbers-put s n e _ h) (on_execution_idle-Renumbers _ n))
]

pub take_notices_of-Renumbers : (s : Session) (n : ℕ) → Renumbers s (take_notices_of s n).1
unfolding take_notices_of
take_notices_of-Renumbers s n = elim (Option-cases (get s.executions n)) [
  | inl h ↦ rw (take_notices_of, h) (Renumbers-self s)
  | inr (e, h) ↦ rw (take_notices_of, h) (Renumbers-put s n e _ h)
]

interrupt_cell-has :
    (s : Session) (alive : Bool) (m : ℕ)
    → has (interrupt_cell s alive).1.executions m ≡ has s.executions m
unfolding interrupt_cell
interrupt_cell-has s alive m = elim (Option-cases s.current_execution) [
  | inl c ↦ ground arith
  | inr (n, c) ↦ elim (Option-cases (get s.executions n)) [
    | inl h ↦ ground arith
    | inr (e, h) ↦
        let marked = put-has s.executions n m e (record e { interrupt_requested = true }) h in
        ground arith
  ]
]

pub interrupt_cell-Renumbers : (s : Session) (alive : Bool) → Renumbers s (interrupt_cell s alive).1
unfolding interrupt_cell
interrupt_cell-Renumbers s alive = record {
  same_has = interrupt_cell-has s alive;
  same_next = ground arith;
  same_current = λ m g. ground arith;
  same_recent = ground arith;
}

exit_current-has :
    (s : Session) (detail : Text) (m : ℕ) → has (exit_current s detail) m ≡ has s.executions m
unfolding exit_current
exit_current-has s detail m = elim (Option-cases s.current_execution) [
  | inl c ↦ ground arith
  | inr (n, c) ↦ elim (Option-cases (get s.executions n)) [
    | inl h ↦ ground arith
    | inr (e, h) ↦
        let ended = put-has s.executions n m e (record_kernel_exit e detail) h in ground arith
  ]
]

pub session_status-Renumbers :
    (s : Session) (alive : Bool) (detail : Text) → Renumbers s (session_status s alive detail).1
unfolding session_status
session_status-Renumbers s alive detail = record {
  same_has = λ m. ground (arith, exit_current-has s detail m);
  same_next = ground arith;
  same_current = λ m g. ground arith;
  same_recent = ground arith;
}

pub take_from-Renumbers : (fuel : ℕ) (s : Session) (n : ℕ) → Renumbers s (take_from fuel s n).1
unfolding take_from
take_from-Renumbers zero s n = Renumbers-self s
take_from-Renumbers (suc fuel) s n = elim (Option-cases (get s.executions n)) [
  | inl h ↦ rw (take_from, h) (Renumbers-self s)
  | inr (e, h) ↦
      let heard = Renumbers-put s n e (take_notices e).1 h in
      let s' : Session = record s { executions = put s.executions n (take_notices e).1 } in
      let passed : Renumbers s (record s' { noticed_through = n }) = record {
        same_has = heard.same_has;
        same_next = refl;
        same_current = λ m g. g;
        same_recent = refl;
      } in
      elim (Bool-cases (take_notices e).1.notices_finished) [
        | inl o ↦
            rw (take_from, h, o) (Renumbers-then s _ _ passed (take_from-Renumbers fuel _ (n + 1)))
        | inr o ↦ rw (take_from, h, o) heard
      ]
]

pub replace_kernel-Renumbers :
    (s : Session) (outcomes : List Bool) (notices : List Text)
    → Renumbers s (replace_kernel s outcomes notices).1
unfolding replace_kernel start_kernel
replace_kernel-Renumbers s outcomes notices = record {
  same_has = λ m. ground arith;
  same_next = ground arith;
  same_current = λ m g. ground arith;
  same_recent = ground arith;
}

pub close_session-Renumbers : (s : Session) → Renumbers s (close_session s)
unfolding close_session
close_session-Renumbers s = record {
  same_has = λ n. refl;
  same_next = refl;
  same_current = λ n g. absurd (ground arith);
  same_recent = refl;
}

failed_record-has :
    (s : Session) (held : Option ℕ) (name value : Text) (m : ℕ)
    → has (failed_record s held name value) m ≡ has s.executions m
unfolding failed_record
failed_record-has s none name value m = refl
failed_record-has s (some n) name value m = elim (Option-cases (get s.executions n)) [
  | inl e ↦ rw (failed_record, e) refl
  | inr (x, e) ↦ rw (failed_record, e) (put-has s.executions n m x (failed_cell x name value) e)
]

pub submit_fails-Renumbers :
    (s : Session) (held : Option ℕ) (name value : Text)
    → Renumbers s (submit_fails s held name value)
unfolding submit_fails
submit_fails-Renumbers s held name value = record {
  same_has = failed_record-has s held name value;
  same_next = refl;
  same_current = λ n h. absurd (ground arith);
  same_recent = refl;
}
