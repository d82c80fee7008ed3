-- ===== src/Session/Notices/Once.antt =====
-- session.py: no notice is handed out twice.
use loommux.Session.{Session}
use loommux.Execution.{is_running, take_notices, Execution}
use loommux.Prelude.{
  subst, ap, Bool-cases, Option-cases, map, ◌≤◌, ℕ, arith, suc, zero, inr, inl, true, refl, none,
  nat_eq, ◌+◌, ◌≡◌, [], false, some,
}
use loommux.Prelude.Dict.{get-put, put, get}
use loommux.Execution.Handout.{take_notices_lem, IsHanded}
use loommux.Session.Notices.{take_all_notices, said_by, take_from}
use loommux.Session.Numbers.{IsSession}

-- The next cell has nothing to say for now, and is not done with.
Quiet : Execution → Type 0
Quiet e = ((take_notices e).0 ≡ []) × ((take_notices e).1.notices_finished ≡ false)

Stopped : Session → Type 0
Stopped s = (e : Execution) → get s.executions (s.noticed_through + 1) ≡ some e → Quiet e

-- The records that the loop meets from a number on.
record IsAhead (s : Session) (n : ℕ) : Type 0 where
  none_beyond : (m : ℕ) → s.next_execution ≤ m → get s.executions m ≡ none
  handed : (m : ℕ) (e : Execution) → n ≤ m → get s.executions m ≡ some e → IsHanded e

take_notices-open :
    (e : Execution) → (take_notices e).1.notices_finished ≡ false → e.notices_finished ≡ false
unfolding take_notices
take_notices-open e h = ground arith

take_notices-stays :
    (e : Execution)
    → (take_notices e).1.notices_finished ≡ false
    → (take_notices (take_notices e).1).1.notices_finished ≡ false
unfolding take_notices is_running
take_notices-stays e h = ground arith

Quiet-after :
    (e : Execution)
    → IsHanded e
    → (take_notices e).1.notices_finished ≡ false
    → Quiet (take_notices e).1
unfolding Quiet
Quiet-after e h o = ((take_notices_lem e h (take_notices-open e o)).4, take_notices-stays e o)

abbrev said : Session → ℕ → Execution → Session
said s n e = record s { executions = put s.executions n (take_notices e).1 }

take_from-none :
    (fuel : ℕ) (s : Session) (n : ℕ) → get s.executions n ≡ none → take_from fuel s n ≡ ([], s)
unfolding take_from
take_from-none zero s n h = refl
take_from-none (suc fuel) s n h = ground arith

take_from-waits :
    (fuel : ℕ) (s : Session) (n : ℕ) (e : Execution)
    → get s.executions n ≡ some e
    → (take_notices e).1.notices_finished ≡ false
    → take_from (suc fuel) s n ≡ (map (said_by (some n)) (take_notices e).0, said s n e)
unfolding take_from
take_from-waits fuel s n e h o = ground arith

take_from-goes :
    (fuel : ℕ) (s : Session) (n : ℕ) (e : Execution)
    → get s.executions n ≡ some e
    → (take_notices e).1.notices_finished ≡ true
    → (take_from (suc fuel) s n).1
      ≡ (take_from fuel (record (said s n e) { noticed_through = n }) (n + 1)).1
unfolding take_from
take_from-goes fuel s n e h o = ground arith

IsAhead-next :
    (s : Session) (n : ℕ) (e : Execution)
    → get s.executions n ≡ some e
    → IsAhead s n
    → IsAhead (record (said s n e) { noticed_through = n }) (n + 1)
IsAhead-next s n e h a = record {
  none_beyond = λ m f.
      let there = get-put s.executions n m (take_notices e).1 in
      ground (arith, a.none_beyond m, a.none_beyond n);
  handed = λ m x f g.
      let there = get-put s.executions n m (take_notices e).1 in ground (arith, a.handed m x);
}

Stopped-none :
    (s : Session) (n : ℕ) → n ≡ s.noticed_through + 1 → get s.executions n ≡ none → Stopped s
unfolding Stopped
Stopped-none s n e h x g = let same = ap (get s.executions) e in absurd (ground arith)

Stopped-said :
    (s : Session) (n : ℕ) (x : Execution)
    → n ≡ s.noticed_through + 1
    → Quiet (take_notices x).1
    → Stopped (said s n x)
unfolding Stopped
Stopped-said s n x e q y g =
    let there = get-put s.executions n (s.noticed_through + 1) (take_notices x).1 in
    subst Quiet (ground arith) q

take_from-Stopped :
    (fuel : ℕ) (s : Session) (n : ℕ)
    → n ≡ s.noticed_through + 1
    → IsAhead s n
    → s.next_execution ≤ fuel + n
    → Stopped (take_from fuel s n).1 × ((take_from fuel s n).1.startup_notices ≡ s.startup_notices)
unfolding Stopped
take_from-Stopped zero s n e a f =
    rw (take_from-none zero s n (a.none_beyond n (omega arith)))
      (Stopped-none s n e (a.none_beyond n (omega arith)), refl)
take_from-Stopped (suc fuel) s n e a f = elim (Option-cases (get s.executions n)) [
  | inl h ↦ rw (take_from-none (suc fuel) s n h) (Stopped-none s n e h, refl)
  | inr (x, h) ↦ elim (Bool-cases (take_notices x).1.notices_finished) [
    | inl o ↦ rw (take_from-goes fuel s n x h o) (
        take_from-Stopped fuel (record (said s n x) { noticed_through = n }) (n + 1) refl
          (IsAhead-next s n x h a) (omega arith))
    | inr o ↦
        rw (take_from-waits fuel s n x h o)
          (Stopped-said s n x e (Quiet-after x (a.handed n x (omega arith) h) o), refl)
  ]
]

numbers_end :
    (s : Session) → IsSession s → (m : ℕ) → s.next_execution ≤ m → get s.executions m ≡ none
numbers_end s v m f = elim (Option-cases (get s.executions m)) [
  | inl e ↦ e
  | inr (x, e) ↦ absurd (omega (arith, (v.numbers m x e).1))
]

take_from-Quiet :
    (fuel : ℕ) (s : Session) → Stopped s → (take_from fuel s (s.noticed_through + 1)).0 ≡ []
unfolding take_from Stopped Quiet
take_from-Quiet zero s q = refl
take_from-Quiet (suc fuel) s q = elim (Option-cases (get s.executions (s.noticed_through + 1))) [
  | inl h ↦ rw (take_from-none (suc fuel) s _ h) refl
  | inr (x, h) ↦
      let (silent, open_) = q x h in rw (take_from-waits fuel s _ x h open_) (rw silent refl)
]

-- Notices are handed out once: where nothing is said between two calls that take the notices of all
-- cells and of the startup files, the second has none.
pub take_all_notices-twice :
    (s : Session)
    → IsSession s
    → ((n : ℕ) (e : Execution) → get s.executions n ≡ some e → IsHanded e)
    → (take_all_notices (take_all_notices s).1).0 ≡ []
unfolding take_all_notices Stopped
take_all_notices-twice s v h =
    let s' : Session = record s { startup_notices = [] } in
    let ahead : IsAhead s' (s.noticed_through + 1) = record {
      none_beyond = λ m f. numbers_end s v m f;
      handed = λ m e f g. h m e g;
    } in
    let (stopped, startup) =
      take_from-Stopped s.next_execution s' (s.noticed_through + 1) refl ahead (omega arith) in
    let t : Session = (take_from s.next_execution s' (s.noticed_through + 1)).1 in
    let quiet : Stopped (record t { startup_notices = [] }) = stopped in
    rw startup (take_from-Quiet t.next_execution (record t { startup_notices = [] }) quiet)
