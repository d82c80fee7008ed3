-- ===== src/Execution/Handout.antt =====
-- execution/record.py: each notice is handed out once.
use loommux.Prelude.{
  ap, true, sym, Bool-cases, ◌∙◌, arith, inr, inl, refl, ◌∷◌, ◌==◌, ◌||◌, ◌+◌, if◌then◌else◌, ◌++◌,
  Text, List, ◌≡◌, ◌≤◌, ℕ, [], false,
}
use loommux.Execution.{taken_all, more_notices, is_running, untaken, Execution, take_notices}
use loommux.Prelude.Lists.{take-all, length-drop, take-append-drop, drop-all, drop, take, length}

-- Hand-outs never run ahead of the notices.
pub record IsHanded (e : Execution) : Type 0 where
  pub taken_le : e.notices_taken ≤ length e.notices

-- What has been handed out so far.
abbrev pub delivered : Execution → List Text
delivered e = take e.notices_taken e.notices

take-more :
    {A : Type 0} (n : ℕ) (l : List A)
    → n ≤ length l
    → take (n + length (drop n l)) l ≡ take n l ++ drop n l
take-more n l h =
    let all : n + length (drop n l) ≡ length l = omega (arith, length-drop n l) in
    rw all (take-all l ∙ sym (take-append-drop n l))

drop-more : {A : Type 0} (n : ℕ) (l : List A) → n ≤ length l → drop (n + length (drop n l)) l ≡ []
drop-more n l h = drop-all _ l (omega (arith, length-drop n l))

takes_running :
    (e : Execution)
    → e.notices_finished ≡ false
    → is_running e ≡ true
    → take_notices e ≡ (untaken e, taken_all e)
unfolding take_notices
takes_running e open_ runs = rw runs (rw open_ refl)

last_words : Execution → List Text
last_words e =
    if e.notices_not_kept == 0 then untaken e else untaken e ++ more_notices e.notices_not_kept ∷ []

takes_ended :
    (e : Execution)
    → e.notices_finished ≡ false
    → is_running e ≡ false
    → take_notices e ≡ (last_words e, record (taken_all e) { notices_finished = true })
unfolding take_notices last_words
takes_ended e open_ ended = rw ended (rw open_ refl)

takes_nothing : (e : Execution) → e.notices_finished ≡ true → (take_notices e).0 ≡ []
unfolding take_notices
takes_nothing e closed = rw closed refl

running_again : (e : Execution) → is_running (taken_all e) ≡ is_running e
unfolding is_running
running_again e = refl

-- A result hands out the notices that come next, in their order: with those handed out before, they
-- are all that were kept, so none is handed out twice or lost. What is not kept is said once, after
-- the end of the cell; from then on there is nothing.
pub take_notices_lem :
    (e : Execution)
    → IsHanded e
    → e.notices_finished ≡ false
    → IsHanded (take_notices e).1
      × (delivered (take_notices e).1 ≡ delivered e ++ untaken e)
      × (delivered (take_notices e).1 ≡ e.notices)
      × ((take_notices e).0 ≡ (
          if is_running e || e.notices_not_kept == 0
          then untaken e
          else untaken e ++ more_notices e.notices_not_kept ∷ []))
      × ((take_notices (take_notices e).1).0 ≡ [])
unfolding last_words
take_notices_lem e h open_ =
    let n = e.notices_taken in
    let more = take-more n e.notices h.taken_le in
    let all = more ∙ take-append-drop n e.notices in
    let end : n + length (untaken e) ≤ length e.notices =
      omega (arith, length-drop n e.notices, h.taken_le) in
    elim (Bool-cases (is_running e)) [
      | inl runs ↦ rw (takes_running e open_ runs) (
        record { taken_le = end },
        more,
        all,
        rw runs refl,
        ap (λ x. x.0) (takes_running (taken_all e) open_ (running_again e ∙ runs))
            ∙ drop-more n e.notices h.taken_le,
      )
      | inr ended ↦
          rw (takes_ended e open_ ended)
            (record { taken_le = end }, more, all, rw ended refl, takes_nothing _ refl)
    ]
