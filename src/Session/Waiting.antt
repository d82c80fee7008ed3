-- ===== src/Session/Waiting.antt =====
-- session.py: `_await`. Times are in ticks of the monotonic clock; a round reads once whether the cell
-- runs, the time, and when the last output came, which is not after it.
use loommux.Prelude.{
  sym, subst, leb→le, Bool-cases, arith, inr, inl, refl, leb, ◌<◌, ◌⊎◌, not, max, ◌≡◌,
  if◌then◌else◌, ◌≤◌, min, ◌+◌, ◌-◌, Bool, ℕ, suc, zero, false, true,
}

pub record WaitReading : Type 0 where
  pub is_running : Bool
  pub now : ℕ
  pub last_output : ℕ

pub data WaitOutcome : Type 0 where
  waiting ended timed_out : WaitOutcome
  silent : ℕ → WaitOutcome

-- The times of one call: when it gives up, the silence it stands, and when silence began to count.
pub record Call : Type 0 where
  pub deadline : ℕ
  pub silence : ℕ
  pub since : ℕ
  pub poll : ℕ

abbrev pub quiet : Call → WaitReading → ℕ
quiet c r = r.now - max c.since r.last_output

-- How long a round waits for the end of the cell.
abbrev pub nap : Call → WaitReading → ℕ
nap c r = min (min (c.deadline - r.now) (c.silence - quiet c r)) c.poll

-- The rounds from one on, over the readings that they find; `waiting` is out of fuel.
unfoldable pub await : Call → (ℕ → WaitReading) → ℕ → ℕ → WaitOutcome
await c world zero round = waiting
await c world (suc fuel) round =
    let r = world round in
    let rest = await c world fuel (round + 1) in
    if not r.is_running
    then ended
    else if leb c.silence (quiet c r)
    then silent (quiet c r)
    else if leb c.deadline r.now
    then timed_out
    else rest

-- Unless the cell ends, a round lasts as long as it was asked to.
pub record IsClock (c : Call) (world : ℕ → WaitReading) : Type 0 where
  pub naps :
      (round : ℕ)
      → (world (round + 1)).is_running ≡ true
      → (world round).now + nap c (world round) ≤ (world (round + 1)).now

-- What a round finds when a call returns in it.
abbrev pub IsReason : Call → WaitReading → WaitOutcome → Type 0
IsReason c r waiting = true ≡ false
IsReason c r ended = r.is_running ≡ false
IsReason c r (silent q) = (q ≡ quiet c r) × (c.silence ≤ q)
IsReason c r timed_out = (c.deadline ≤ r.now) × (quiet c r < c.silence)

abbrev Returns : Call → (ℕ → WaitReading) → ℕ → ℕ → Type 0
Returns c world fuel round =
    (n : ℕ) × (round ≤ n)
    × (n ≤ round + fuel)
    × IsReason c (world n) (await c world (suc fuel) round)

module _ (c : Call) (world : ℕ → WaitReading) where
  -- A round that goes on.
  record GoesOn (round : ℕ) : Type 0 where
    runs : (world round).is_running ≡ true
    spoke : quiet c (world round) < c.silence
    early : (world round).now < c.deadline

  because :
      (fuel round : ℕ) (o : WaitOutcome)
      → await c world (suc fuel) round ≡ o
      → IsReason c (world round) o
      → IsReason c (world round) (await c world (suc fuel) round)
  because fuel round o e reason = subst (IsReason c (world round)) (sym e) reason

  round-cases :
      (fuel round : ℕ) → GoesOn round ⊎ IsReason c (world round) (await c world (suc fuel) round)
  unfolding await
  round-cases fuel round = elim (Bool-cases (world round).is_running) [
    | inr e ↦ inr (because fuel round ended (ground arith) e)
    | inl e ↦ elim (Bool-cases (leb c.silence (quiet c (world round)))) [
      | inl q ↦
          inr (
            because fuel round (silent (quiet c (world round))) (ground arith) (refl, leb→le _ _ q))
      | inr q ↦ elim (Bool-cases (leb c.deadline (world round).now)) [
        | inl d ↦ inr (because fuel round timed_out (ground arith) (leb→le _ _ d, ground arith))
        | inr d ↦ inl (record { runs = e; spoke = ground arith; early = ground arith })
      ]
    ]
  ]

  await-on :
      (fuel round : ℕ)
      → GoesOn round
      → await c world (suc fuel) round ≡ await c world fuel (round + 1)
  unfolding await
  await-on fuel round g = ground (arith, g.runs, g.spoke, g.early)

  returns :
      (fuel round : ℕ)
      → IsClock c world
      → 1 ≤ c.poll
      → ((world round).is_running ≡ true → c.deadline ≤ (world round).now + fuel)
      → Returns c world fuel round
  returns zero round k p d = elim (round-cases zero round) [
    | inl g ↦ absurd (omega (arith, d g.runs, g.early))
    | inr reason ↦ (round, omega arith, omega arith, reason)
  ]
  returns (suc fuel) round k p d = elim (round-cases (suc fuel) round) [
    | inr reason ↦ (round, omega arith, omega arith, reason)
    | inl g ↦
        let (n, from, to, reason) =
          returns fuel (round + 1) k p
            λ runs. omega (arith, k.naps round runs, d g.runs, g.early, g.spoke) in
        (n, omega arith, omega arith, rw (await-on (suc fuel) round g) reason)
  ]

-- A call returns, within a round for each tick of its timeout and one more: because it finds the cell
-- ended, or silent for the time allowed, or, only where it is not, because the deadline has passed.
pub await-returns :
    (c : Call) (world : ℕ → WaitReading) (fuel : ℕ)
    → IsClock c world
    → 1 ≤ c.poll
    → c.deadline ≤ (world 0).now + fuel
    → (n : ℕ) × (n ≤ fuel) × IsReason c (world n) (await c world (suc fuel) 0)
await-returns c world fuel k p d =
    let (n, from, to, reason) = returns c world fuel 0 k p (λ runs. d) in (n, omega arith, reason)
