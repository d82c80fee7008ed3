-- ===== src/Logs.antt =====
-- execution/logs.py: append-only text with line coordinates. The lock of a log makes each method one
-- step; a reader returns what it reads and the log after it, since reading joins the queue.
pub mod Since
pub mod Counts
pub mod Lines
pub mod Search
pub mod Projections
use loommux.Prelude.{
  ◌==◌, leb, ◌-◌, ltb, ◌++◌, ◌+◌, or_else, ◌∷◌, if◌then◌else◌, Option, List, ℕ, Text, [], suc, zero,
  some, none,
}
use loommux.Prelude.Lists.{length, get_elem?, drop}

pub record LineLog : Type 0 where
  pub text : Text
  pub pending : List Text
  pub pending_ends : List ℕ
  pub lines : Option (List Text)
  pub character_count : ℕ
  pub utf8_byte_count : ℕ

-- LineLog()
unfoldable pub new_log : LineLog
new_log = record {
  text = [];
  pending = [];
  pending_ends = [];
  lines = some [];
  character_count = 0;
  utf8_byte_count = 0;
}

-- `"".join(chunks)`.
unfoldable pub concat : List Text → Text
concat [] = []
concat (t ∷ l) = t ++ concat l

-- The bytes of a code point in UTF-8.
abbrev pub utf8_size : ℕ → ℕ
utf8_size c = if ltb c 0x80 then 1 else if ltb c 0x800 then 2 else if ltb c 0x10000 then 3 else 4

unfoldable pub encoded_size : Text → ℕ
encoded_size [] = 0
encoded_size (c ∷ t) = utf8_size c + encoded_size t

-- append
unfoldable pub append : LineLog → Text → LineLog
append l [] = l
append l (c ∷ t) = record l {
  pending = l.pending ++ (c ∷ t) ∷ [];
  character_count = l.character_count + length (c ∷ t);
  utf8_byte_count = l.utf8_byte_count + encoded_size (c ∷ t);
  pending_ends = l.pending_ends ++ (l.character_count + length (c ∷ t)) ∷ [];
}

-- _joined_locked, and the property `text`.
unfoldable pub joined : LineLog → Text × LineLog
joined l = elim l.pending [
  | [] ↦ (l.text, l)
  | c ∷ cs ↦ (
    concat (l.text ∷ c ∷ cs),
    record l { text = concat (l.text ∷ c ∷ cs); pending = []; pending_ends = []; lines = none },
  )
]

-- bisect.bisect_right on a sorted list.
unfoldable pub bisect_right : List ℕ → ℕ → ℕ
bisect_right [] x = 0
bisect_right (e ∷ l) x = let rest = bisect_right l x in if leb e x then suc rest else 0

abbrev pub start_at : ℕ → List ℕ → ℕ → ℕ
start_at joined ends zero = joined
start_at joined ends (suc index) = or_else (get_elem? ends index) 0

-- The rest of the chunk that the offset falls in, and the chunks after it.
unfoldable pub tail_from : ℕ → List ℕ → List Text → ℕ → ℕ → Text
tail_from joined ends pending index offset =
    drop (offset - start_at joined ends index) (or_else (get_elem? pending index) [])
    ++ concat (drop (suc index) pending)

-- text_since
pub text_since : LineLog → ℕ → Text
text_since l offset =
    if ltb offset (length l.text)
    then concat (drop offset l.text ∷ l.pending)
    else let index = bisect_right l.pending_ends offset in
      if index == length l.pending
      then []
      else tail_from (length l.text) l.pending_ends l.pending index offset
