-- ===== src/Logs/Since.antt =====
-- execution/logs.py: `text_since` without the join.
use loommux.Prelude.{
  ltb, suc, zero, false, true, leb, Bool-cases, arith, sym, ◌∙◌, ◌+◌, ◌-◌, ◌==◌, ◌∷◌, if◌then◌else◌,
  ◌++◌, ◌≤◌, Text, ◌≡◌, List, ℕ, [], inr, inl, refl,
}
use loommux.Logs.{start_at, encoded_size, tail_from, concat, LineLog, bisect_right, text_since}
use loommux.Prelude.Lists.{drop-all, drop-append, drop, length}

-- The whole text of a log, the queue included.
abbrev pub whole : LineLog → Text
whole l = l.text ++ concat l.pending

-- The count of characters up to the end of each chunk.
unfoldable pub ends_of : ℕ → List Text → List ℕ
ends_of from [] = []
ends_of from (c ∷ cs) = (from + length c) ∷ ends_of (from + length c) cs

-- The bookkeeping of a log is right.
pub record IsLog (l : LineLog) : Type 0 where
  pub ends : l.pending_ends ≡ ends_of (length l.text) l.pending
  pub characters : l.character_count ≡ length (whole l)
  pub bytes : l.utf8_byte_count ≡ encoded_size (whole l)

drop_past : (n : ℕ) (c t : Text) → length c ≤ n → drop n (c ++ t) ≡ drop (n - length c) t
drop_past n c t h = drop-append n c t ∙ rw (drop-all n c h) refl

sub_within : (n k : ℕ) → n ≤ k → n - k ≡ 0
sub_within n k h = omega arith

drop_within : (n : ℕ) (c t : Text) → n ≤ length c → drop n (c ++ t) ≡ drop n c ++ t
drop_within n c t h = drop-append n c t ∙ rw (sub_within n (length c) h)

-- What `text_since` computes from the queue alone.
queued : ℕ → List ℕ → List Text → ℕ → Text
queued from ends pending offset =
    let index = bisect_right ends offset in
    if index == length pending then [] else tail_from from ends pending index offset

start_at-suc : (from e : ℕ) (es : List ℕ) (i : ℕ) → start_at from (e ∷ es) (suc i) ≡ start_at e es i
start_at-suc from e es zero = refl
start_at-suc from e es (suc i) = refl

queued_past :
    (from e : ℕ) (es : List ℕ) (c : Text) (cs : List Text) (offset : ℕ)
    → leb e offset ≡ true
    → queued from (e ∷ es) (c ∷ cs) offset ≡ queued e es cs offset
unfolding queued bisect_right tail_from
queued_past from e es c cs offset past =
    rw past (ground (arith, start_at-suc from e es (bisect_right es offset)))

queued_within :
    (from e : ℕ) (es : List ℕ) (c : Text) (cs : List Text) (offset : ℕ)
    → leb e offset ≡ false
    → queued from (e ∷ es) (c ∷ cs) offset ≡ drop (offset - from) c ++ concat cs
unfolding queued bisect_right tail_from
queued_within from e es c cs offset within = rw within (ground arith)

queued_none : (from offset : ℕ) → queued from [] [] offset ≡ []
unfolding queued bisect_right
queued_none from offset = ground arith

queued-drop :
    (from : ℕ) (pending : List Text) (offset : ℕ)
    → from ≤ offset
    → queued from (ends_of from pending) pending offset ≡ drop (offset - from) (concat pending)
unfolding ends_of concat
queued-drop from [] offset le =
    queued_none from offset ∙ sym (drop-all (offset - from) [] (omega arith))
queued-drop from (c ∷ cs) offset le = elim (Bool-cases (leb (from + length c) offset)) [
  | inl past ↦
      let later : from + length c ≤ offset = ground arith in
      let rest = queued-drop (from + length c) cs offset later in
      let same : offset - from - length c ≡ offset - (from + length c) = omega arith in
      queued_past from (from + length c) _ c cs offset past
      ∙ rest
      ∙ sym (drop_past (offset - from) c (concat cs) (omega arith) ∙ rw same)
  | inr within ↦
      let early : offset - from ≤ length c = ground arith in
      queued_within from (from + length c) _ c cs offset within
      ∙ sym (drop_within (offset - from) c (concat cs) early)
]

-- The text since an offset is the whole text without its first `offset` characters, however much
-- of it waits in the queue.
pub text_since-drop :
    (l : LineLog) (offset : ℕ) → IsLog l → text_since l offset ≡ drop offset (whole l)
unfolding text_since concat queued
text_since-drop l offset v = elim (Bool-cases (ltb offset (length l.text))) [
  | inl early ↦ rw early (sym (drop_within offset l.text (concat l.pending) (ground arith)))
  | inr late ↦
      let from : length l.text ≤ offset = ground arith in
      rw (late, v.ends)
        (queued-drop (length l.text) l.pending offset from
          ∙ sym (drop_past offset l.text (concat l.pending) from))
]
