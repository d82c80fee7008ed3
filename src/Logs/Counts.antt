-- ===== src/Logs/Counts.antt =====
-- execution/logs.py: the bookkeeping of appends and joins.
use loommux.Prelude.{
  ap, ◌∙◌, none, ◌⊎◌, inr, inl, arith, append-nil, append_assoc, ◌+◌, sym, ◌∷◌, ◌++◌, ◌≡◌, Text, ℕ,
  List, [], refl,
}
use loommux.Logs.{LineLog, append, joined, concat, new_log, encoded_size}
use loommux.Logs.Since.{whole, IsLog, ends_of}
use loommux.Prelude.Lists.{length-append, length}

concat-append : (l k : List Text) → concat (l ++ k) ≡ concat l ++ concat k
unfolding concat
concat-append [] k = refl
concat-append (t ∷ l) k = rw (concat-append l k, append_assoc)

encoded_size-append : (t u : Text) → encoded_size (t ++ u) ≡ encoded_size t + encoded_size u
unfolding encoded_size
encoded_size-append [] u = omega arith
encoded_size-append (c ∷ t) u = omega (arith, encoded_size-append t u)

ends_of-append :
    (from : ℕ) (l : List Text) (c : Text)
    → ends_of from (l ++ c ∷ []) ≡ ends_of from l ++ (from + length (concat l) + length c) ∷ []
unfolding ends_of concat
ends_of-append from [] c = ground arith
ends_of-append from (d ∷ l) c =
    ground (arith, ends_of-append (from + length d) l c, length-append d (concat l))

pub whole-append : (l : LineLog) (t : Text) → whole (append l t) ≡ whole l ++ t
unfolding append concat
whole-append l [] = sym (append-nil (whole l))
whole-append l (c ∷ t) = rw (concat-append l.pending ((c ∷ t) ∷ []), append-nil, append_assoc)

new_log-IsLog : IsLog new_log
unfolding new_log concat ends_of encoded_size
new_log-IsLog = record { ends = refl; characters = refl; bytes = refl }

-- Appending adds the text at the end of the log, and keeps its bookkeeping right: the ends in the
-- queue, the characters and the bytes of UTF-8 are those of the whole text.
pub append-IsLog :
    (l : LineLog) (t : Text) → IsLog l → IsLog (append l t) × (whole (append l t) ≡ whole l ++ t)
unfolding append
append-IsLog l [] v = (v, whole-append l [])
append-IsLog l (c ∷ t) v =
    let count : l.character_count + length (c ∷ t)
        ≡ length l.text + length (concat l.pending) + length (c ∷ t) =
      omega (arith, v.characters, length-append l.text (concat l.pending)) in
    (
      record {
        ends = rw (ends_of-append (length l.text) l.pending (c ∷ t), v.ends, count);
        characters =
            rw (whole-append l (c ∷ t))
              (omega (arith, v.characters, length-append (whole l) (c ∷ t)));
        bytes =
            rw (whole-append l (c ∷ t))
              (omega (arith, v.bytes, encoded_size-append (whole l) (c ∷ t)));
      },
      whole-append l (c ∷ t),
    )

list_cases : (l : List Text) → (l ≡ []) ⊎ ((c : Text) × (cs : List Text) × (l ≡ c ∷ cs))
list_cases [] = inl refl
list_cases (c ∷ cs) = inr (c, cs, refl)

joined_none : (l : LineLog) → l.pending ≡ [] → joined l ≡ (l.text, l)
unfolding joined
joined_none l e = ground arith

joined_some :
    (l : LineLog) (c : Text) (cs : List Text)
    → l.pending ≡ c ∷ cs
    → joined l ≡ (
      concat (l.text ∷ c ∷ cs),
      record l { text = concat (l.text ∷ c ∷ cs); pending = []; pending_ends = []; lines = none },
    )
unfolding joined
joined_some l c cs e = ground arith

-- A read returns the whole text, which the log keeps with its bookkeeping.
pub joined-IsLog :
    (l : LineLog)
    → IsLog l
    → ((joined l).0 ≡ whole l) × IsLog (joined l).1 × (whole (joined l).1 ≡ whole l)
unfolding concat ends_of
joined-IsLog l v = elim (list_cases l.pending) [
  | inl e ↦
      let none_waits : l.text ≡ whole l = sym (append-nil l.text) ∙ rw (e, concat) in
      rw (joined_none l e) (none_waits, v, refl)
  | inr (c, cs, e) ↦
      let all : l.text ++ (c ++ concat cs) ≡ whole l = rw e in
      rw (joined_some l c cs e) (
        all,
        record {
          ends = refl;
          characters = rw append-nil (v.characters ∙ ap length (sym all));
          bytes = rw append-nil (v.bytes ∙ ap encoded_size (sym all));
        },
        append-nil _ ∙ all,
      )
]
