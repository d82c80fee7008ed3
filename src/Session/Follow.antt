-- ===== src/Session/Follow.antt =====
-- session.py: following a cell by asking for its output again and again.
use loommux.Session.Calls.{since}
use loommux.Logs.{LineLog, append, text_since}
use loommux.Logs.Since.{IsLog, whole, text_since-drop}
use loommux.Logs.Counts.{append-IsLog}
use loommux.Prelude.{append_assoc, sym, ◌∙◌, ap, ◌≡◌, arith, ◌++◌, ◌+◌, ◌≤◌, ◌∷◌, List, Text, ℕ, []}
use loommux.Prelude.Lists.{
  take-append, take-append-drop, length-drop, drop, length-append, take, length,
}

-- The answers of a follower who asks, and asks again after each text that is appended.
pub follow : LineLog → ℕ → List Text → Text
follow log offset [] = (since log offset).0
follow log offset (t ∷ ts) =
    let (text, next) = since log offset in text ++ follow (append log t) next ts

pub grown : LineLog → List Text → LineLog
grown log [] = log
grown log (t ∷ ts) = grown (append log t) ts

next_offset : (n : ℕ) (l : Text) → n ≤ length l → n + length (drop n l) ≡ length l
next_offset n l h = omega (arith, length-drop n l)

length-whole :
    (log : LineLog) (t : Text) → IsLog log → length (whole log) ≤ length (whole (append log t))
length-whole log t v = rw ((append-IsLog log t v).1) (omega (arith, length-append (whole log) t))

-- Someone who follows from an offset that is there, and goes on from the offset of each answer, gets
-- what was written from there on, nothing twice and nothing lost, however the output grows meanwhile.
pub follow-whole :
    (log : LineLog) (offset : ℕ) (ts : List Text)
    → IsLog log
    → offset ≤ length (whole log)
    → take offset (whole log) ++ follow log offset ts ≡ whole (grown log ts)
unfolding follow grown
follow-whole log offset [] v h =
    rw (text_since-drop log offset v) (take-append-drop offset (whole log))
follow-whole log offset (t ∷ ts) v h =
    let (valid, grows) = append-IsLog log t v in
    let next : ℕ = offset + length (text_since log offset) in
    let all : next ≡ length (whole log) =
      ap (λ x. offset + length x) (text_since-drop log offset v)
      ∙ next_offset offset (whole log) h in
    let taken : take next (whole (append log t)) ≡ whole log =
      ap (take next) grows ∙ take-append (whole log) t next (sym all) in
    let rest = follow (append log t) next ts in
    sym (append_assoc (take offset (whole log)) (text_since log offset) rest)
    ∙ ap (λ x. x ++ rest)
        (ap (λ x. take offset (whole log) ++ x) (text_since-drop log offset v)
          ∙ take-append-drop offset (whole log)
          ∙ sym taken)
    ∙ follow-whole (append log t) next ts valid (omega (arith, length-whole log t v))
