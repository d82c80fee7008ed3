-- ===== src/Session/Numbers.antt =====
-- session.py: what the numbers of executions stand for.
use loommux.Prelude.{
  arith, subst, Option-cases, inr, inl, nat_eq, ◌==◌, if◌then◌else◌, ◌<◌, ◌≤◌, ◌≡◌, Bool, ℕ, true,
  some, none,
}
use loommux.Session.{accepted, select_execution, accept_cell, Session}
use loommux.Execution.{Execution}
use loommux.Prelude.Dict.{get-put, has, get}
use loommux.Prelude.Result.{ok}

-- The records have the numbers from one up to the next, all of them and no other, and the current and
-- the recent one are there.
pub record IsSession (s : Session) : Type 0 where
  pub numbers :
      (n : ℕ) (e : Execution) → get s.executions n ≡ some e → (1 ≤ n) × (n < s.next_execution)
  pub numbered : (n : ℕ) → 1 ≤ n → n < s.next_execution → has s.executions n ≡ true
  pub next_pos : 1 ≤ s.next_execution
  pub current : (n : ℕ) → s.current_execution ≡ some n → has s.executions n ≡ true
  pub recent : (n : ℕ) → s.recent_execution ≡ some n → has s.executions n ≡ true

abbrev Accepted : (ℕ → Execution) → Session → Session → Type 0
Accepted fresh s t =
    IsSession t
    × (get s.executions s.next_execution ≡ none)
    × (select_execution t none ≡ some (fresh s.next_execution))
    × ((n : ℕ)
        → get t.executions n
          ≡ (if s.next_execution == n then some (fresh s.next_execution) else get s.executions n))

fresh_number : (s : Session) → IsSession s → get s.executions s.next_execution ≡ none
fresh_number s v = elim (Option-cases (get s.executions s.next_execution)) [
  | inl e ↦ e
  | inr (x, e) ↦ absurd (omega (arith, (v.numbers s.next_execution x e).1))
]

accepted-Accepted :
    (fresh : ℕ → Execution) (s : Session) → IsSession s → Accepted fresh s (accepted fresh s)
unfolding select_execution
accepted-Accepted fresh s v =
    let found : (n : ℕ)
        → get (accepted fresh s).executions n
          ≡ (if s.next_execution == n then some (fresh s.next_execution) else get s.executions n) =
      λ n. get-put s.executions s.next_execution n (fresh s.next_execution) in
    (
      record {
        numbers = λ n x h. ground (arith, found n, v.numbers n x, v.next_pos);
        numbered = λ n low high. ground (arith, found n, v.numbered n low, v.next_pos);
        next_pos = omega arith;
        current = λ n h. ground (arith, found n);
        recent = λ n h. ground (arith, found n);
      },
      fresh_number s v,
      ground (arith, found s.next_execution),
      found,
    )

-- A cell that is accepted gets a number that no record has; its record is the one that a call selects
-- without naming a number, every other record stays, and the numbering stays right.
pub accept_cell-IsSession :
    (fresh : ℕ → Execution) (s s' : Session) (alive : Bool)
    → IsSession s
    → accept_cell fresh s alive ≡ ok s'
    → IsSession s'
      × (get s.executions s.next_execution ≡ none)
      × (select_execution s' none ≡ some (fresh s.next_execution))
      × ((n : ℕ)
          → get s'.executions n
            ≡ (if s.next_execution == n then some (fresh s.next_execution) else get s.executions n))
unfolding accept_cell
accept_cell-IsSession fresh s s' alive v e =
    subst (λ t. Accepted fresh s t) (ground arith) (accepted-Accepted fresh s v)
