-- ===== src/Execution/Tokens.antt =====
-- execution/record.py: the count of tokens that is kept is the count of the output.
use loommux.Prelude.{
  ap, arith, ◌∷◌, sym, subst, [], inr, inl, refl, ltb, ◌&&◌, not, ◌⊎◌, if◌then◌else◌, ◌≡◌, ℕ, Text,
  some, none,
}
use loommux.Execution.{
  noted, token_limit_exceeded, still_running, is_running, Execution, cell_result,
  combined_output_token_count, cell_stderr, cell_stdout, output_omitted_reason,
}
use loommux.Logs.Since.{whole, IsLog}
use loommux.Terminal.{normalize}
use loommux.Logs.Projections.{append_result, append_stderr, append_stdout}
use loommux.Logs.Counts.{joined-IsLog}
use loommux.Logs.{append}

-- A count that is kept is that of the whole output.
abbrev pub IsCurrent : (Text → ℕ) → Execution → Type 0
IsCurrent tokens e =
    (e.output_token_count ≡ none) ⊎ (e.output_token_count ≡ some (tokens (whole e.logs.combined)))

noted-IsCurrent :
    (tokens : Text → ℕ) (e f : Execution) (t : Text)
    → IsCurrent tokens e
    → f.output_token_count ≡ e.output_token_count
    → (t ≡ [] → f.logs.combined ≡ e.logs.combined)
    → IsCurrent tokens (noted f t)
unfolding noted
noted-IsCurrent tokens e f [] h same log =
    subst (λ c. (c ≡ none) ⊎ (c ≡ some (tokens (whole f.logs.combined)))) (sym same)
      (subst (λ l. (e.output_token_count ≡ none) ⊎ (e.output_token_count ≡ some (tokens (whole l))))
        (sym (log refl)) h)
noted-IsCurrent tokens e f (c ∷ t) h same log = inl refl

-- Output of any kind that arrives leaves no count that is out of date.
pub output-IsCurrent :
    (tokens : Text → ℕ) (e : Execution) (t : Text)
    → IsCurrent tokens e
    → IsCurrent tokens (cell_stdout e t)
      × IsCurrent tokens (cell_stderr e t)
      × IsCurrent tokens (cell_result e t)
unfolding cell_stdout cell_stderr cell_result append_stdout append_stderr append_result append
output-IsCurrent tokens e t h = (
  noted-IsCurrent tokens e _ (normalize e.stdout_normalizer t).1 h refl (λ n. rw n refl),
  noted-IsCurrent tokens e _ (normalize e.stderr_normalizer t).1 h refl (λ n. rw n refl),
  noted-IsCurrent tokens e _ (normalize e.result_normalizer t).1 h refl (λ n. rw n refl),
)

count_lem :
    (tokens : Text → ℕ) (e : Execution)
    → IsCurrent tokens e
    → IsLog e.logs.combined
    → (combined_output_token_count tokens e).0 ≡ tokens (whole e.logs.combined)
unfolding combined_output_token_count
count_lem tokens e h v = elim h [
  | inl uncounted ↦ rw uncounted (ap tokens (joined-IsLog e.logs.combined v).0)
  | inr counted ↦ rw counted
]

-- So whether output is omitted is decided by the tokens of the whole output, counted or kept.
pub omitted_lem :
    (tokens : Text → ℕ) (e : Execution)
    → IsCurrent tokens e
    → IsLog e.logs.combined
    → (output_omitted_reason tokens e).0 ≡ (
        if is_running e
        then some still_running
        else if not e.full_output_requested && ltb 5000 (tokens (whole e.logs.combined))
        then some token_limit_exceeded
        else none)
unfolding output_omitted_reason
omitted_lem tokens e h v = rw (count_lem tokens e h v) (ground arith)
