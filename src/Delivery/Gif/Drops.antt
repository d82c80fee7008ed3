-- ===== src/Delivery/Gif/Drops.antt =====
-- Bytes and what stands behind them.
use loommux.Prelude.{
  arith, sym, ◌-◌, ap, ◌<◌, ◌∙◌, ◌++◌, ◌+◌, ◌≤◌, ◌≡◌, ◌∷◌, List, ℕ, [], suc, zero, refl, some,
}
use loommux.Prelude.Lists.{length-drop, length, get_elem?, drop}

-- Where the rest of the data is known, so is the byte at its head, and the rest behind it.
pub drop-head :
    {A : Type 0} (p : ℕ) (l : List A) (a : A) (rest : List A)
    → drop p l ≡ a ∷ rest
    → (get_elem? l p ≡ some a) × (drop (suc p) l ≡ rest)
drop-head zero [] a rest h = cc
drop-head zero (x ∷ l) a rest h = (cc, cc)
drop-head (suc p) [] a rest h = cc
drop-head (suc p) (x ∷ l) a rest h = drop-head p l a rest h

pub next_eq : (p : ℕ) → p + 1 ≡ suc p
next_eq p = omega arith

drop-drop : {A : Type 0} (p n q : ℕ) (l : List A) → q ≡ p + n → drop q l ≡ drop n (drop p l)
drop-drop zero n q l e = ap (λ k. drop k l) (omega arith)
drop-drop (suc p) n zero l e = absurd (omega arith)
drop-drop (suc p) zero (suc q) [] e = refl
drop-drop (suc p) (suc n) (suc q) [] e = refl
drop-drop (suc p) n (suc q) (x ∷ l) e = drop-drop p n q l (omega arith)

drop-own : {A : Type 0} (xs ys : List A) → drop (length xs) (xs ++ ys) ≡ ys
drop-own [] ys = refl
drop-own (x ∷ xs) ys = drop-own xs ys

pub drop-skip :
    {A : Type 0} (p q : ℕ) (l bs rest : List A)
    → drop p l ≡ bs ++ rest
    → q ≡ p + length bs
    → drop q l ≡ rest
drop-skip p q l bs rest h e =
    drop-drop p (length bs) q l e ∙ ap (drop (length bs)) h ∙ drop-own bs rest

drop-length : {A : Type 0} (p : ℕ) (l rest : List A) → drop p l ≡ rest → length rest ≡ length l - p
drop-length p l rest h = ap length (sym h) ∙ length-drop p l

pub drop-lt : (p : ℕ) (l rest : List ℕ) → drop p l ≡ rest → 1 ≤ length rest → p < length l
drop-lt p l rest h f = omega (arith, drop-length p l rest h)
