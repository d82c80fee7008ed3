-- ===== src/Terminal/Chunks.antt =====
-- execution/terminal.py: how a stream is cut into chunks.
use loommux.Prelude.{Text, [], ◌∷◌, ◌++◌, ◌≡◌, refl, append_assoc}
use loommux.Terminal.{ParserState, consume, normalize}

-- Normalizing a stream in two chunks, with the state kept between them, gives the state and the
-- text of normalizing it whole, wherever it is cut and whatever control is open.
pub normalize-append :
    (s : ParserState) (xs ys : Text)
    → normalize s (xs ++ ys) ≡ (
      (normalize (normalize s xs).0 ys).0,
      (normalize s xs).1 ++ (normalize (normalize s xs).0 ys).1,
    )
unfolding normalize
normalize-append s [] ys = refl
normalize-append s (c ∷ xs) ys = rw (normalize-append (consume s c).0 xs ys, append_assoc) refl
