-- ===== src/Manager/Names/Free.antt =====
-- resource/manager.py: a free name is found, and it is the first.
use loommux.Prelude.{
  text_is_eq, Option, text_eq_refl, ◌∙◌, map, sym, ==_iff, subst, leb, ap, ◌==◌, text_eq,
  if◌then◌else◌, text_eq_iff, ◌+◌, ◌∷◌, Bool-cases, arith, ◌||◌, ◌<◌, ◌≡◌, ◌≢◌, ◌≤◌, Bool, List,
  ◌++◌, ℕ, Text, [], suc, zero, inr, inl, false, true, refl, some,
}
use loommux.Connections.{elem}
use loommux.Manager.Names.{free_name, rounds, is_taken, search_name, numbered}
use loommux.Prelude.Lists.{length-append, length}
use loommux.Prelude.Decimal.{decimal-injective, decimal}
use loommux.Manager.State.{Manager}
use loommux.Prelude.Dict.{has, get, Dict, keys}
use loommux.Model.Keys.{resource_key-injective, HomeOk}
use loommux.Model.{resource_key}

erase : Text → List Text → List Text
erase x [] = []
erase x (y ∷ l) = let rest = erase x l in if text_eq y x then l else y ∷ rest

length-erase : (x : Text) (l : List Text) → elem x l ≡ true → suc (length (erase x l)) ≡ length l
unfolding erase elem
length-erase x [] h = cc
length-erase x (y ∷ l) h = ground (arith, length-erase x l)

elem-erase : (x z : Text) (l : List Text) → x ≢ z → elem z l ≡ true → elem z (erase x l) ≡ true
unfolding erase elem
elem-erase x z [] ne h = cc
elem-erase x z (y ∷ l) ne h = ground (arith, text_eq_iff y x, text_eq_iff y z, elem-erase x z l ne)

elem-append : (x : Text) (l k : List Text) → elem x (l ++ k) ≡ (elem x l || elem x k)
unfolding elem
elem-append x [] k = refl
elem-append x (y ∷ l) k = ground (arith, elem-append x l k)

-- Different numbers give different names.
length-numbered : (name : Text) (n : ℕ) → 1 < n → length name < length (numbered name n)
unfolding numbered
length-numbered name n h = ground (arith, length-append name (b'-' ∷ decimal n))

append_cancel : (x s t : Text) → x ++ s ≡ x ++ t → s ≡ t
append_cancel [] s t e = e
append_cancel (c ∷ x) s t e = append_cancel x s t (ground arith)

numbered_bare : (name : Text) (n : ℕ) → leb n 1 ≡ true → numbered name n ≡ name
unfolding numbered
numbered_bare name n h = rw h

numbered_suffix :
    (name : Text) (n : ℕ) → leb n 1 ≡ false → numbered name n ≡ name ++ b'-' ∷ decimal n
unfolding numbered
numbered_suffix name n h = rw h

bare_ne_suffix :
    (name : Text) (n m : ℕ) → leb n 1 ≡ true → leb m 1 ≡ false → numbered name n ≢ numbered name m
bare_ne_suffix name n m a b e =
    let same : length name ≡ length (numbered name m) =
      ap length (sym (numbered_bare name n a) ∙ e) in
    let longer : length name < length (numbered name m) = length-numbered name m (ground arith) in
    omega arith

numbered-injective :
    (name : Text) (n m : ℕ) → 0 < n → 0 < m → numbered name n ≡ numbered name m → n ≡ m
numbered-injective name n m p q e = elim (Bool-cases (leb n 1)) [
  | inl a ↦ elim (Bool-cases (leb m 1)) [
    | inl b ↦ ground arith
    | inr b ↦ absurd (bare_ne_suffix name n m a b e)
  ]
  | inr a ↦ elim (Bool-cases (leb m 1)) [
    | inl b ↦ absurd (bare_ne_suffix name m n b a (sym e))
    | inr b ↦
        let both : name ++ b'-' ∷ decimal n ≡ name ++ b'-' ∷ decimal m =
          sym (numbered_suffix name n a) ∙ e ∙ numbered_suffix name m b in
        let tails = append_cancel name _ _ both in decimal-injective n m (ground arith)
  ]
]

-- The first number from a start on whose name is free.
pub record IsFirst (taken : Text → Bool) (name : Text) (start n : ℕ) : Type 0 where
  pub from : start ≤ n
  pub free : taken (numbered name n) ≡ false
  pub before : (k : ℕ) → start ≤ k → k < n → taken (numbered name k) ≡ true

module _ (taken : Text → Bool) (name : Text) (key_of : Text → Text)
    (distinct : (n m : ℕ)
      → 0 < n
      → 0 < m
      → key_of (numbered name n) ≡ key_of (numbered name m)
      → n ≡ m) where
  -- The search ends in as many rounds as there are keys in `l`, where each name that is taken has its
  -- key in `l`, at the first number that is free.
  search_total :
      (fuel number : ℕ) (l : List Text)
      → 0 < number
      → ((k : ℕ)
          → number ≤ k
          → taken (numbered name k) ≡ true
          → elem (key_of (numbered name k)) l ≡ true)
      → length l < fuel
      → (n : ℕ) × (search_name taken name fuel number ≡ some (numbered name n))
        × IsFirst taken name number n
  unfolding search_name
  search_total zero number l p cover enough = absurd (omega arith)
  search_total (suc fuel) number l p cover enough =
      elim (Bool-cases (taken (numbered name number))) [
        | inr free ↦ (
          number,
          rw free,
          record { from = omega arith; free = free; before = λ k a b. absurd (omega arith) },
        )
        | inl used ↦
            let here = cover number (omega arith) used in
            let x : Text = key_of (numbered name number) in
            let (n, found, first) =
              search_total fuel (number + 1) (erase x l) (omega arith)
                (λ k a t.
                  elem-erase x (key_of (numbered name k)) l
                    (λ e. absurd (omega (arith, distinct number k p (omega arith) e)))
                    (cover k (omega arith) t))
                (omega (arith, length-erase x l here)) in
            (
              n,
              rw used found,
              record {
                from = omega (arith, first.from);
                free = first.free;
                before = λ k a b. elim (Bool-cases (number == k)) [
                  | inl e ↦ subst (λ j. taken (numbered name j) ≡ true) ((==_iff number k).0 e) used
                  | inr e ↦ first.before k (ground arith) b
                ];
              },
            )
      ]

pub elem-keys : {V : Type 0} (d : Dict Text V) (k : Text) → has d k ≡ true → elem k (keys d) ≡ true
unfolding elem keys get
elem-keys [] k h = cc
elem-keys ((j, v) ∷ d) k h = ground (arith, elem-keys d k)

length-keys : {V : Type 0} (d : Dict Text V) → length (keys d) ≡ length d
unfolding keys
length-keys [] = refl
length-keys ((j, v) ∷ d) = ap suc (length-keys d)

elem-map :
    (f : Text → Text) (x : Text) (l : List Text) → elem x l ≡ true → elem (f x) (map f l) ≡ true
unfolding elem
elem-map f x [] h = cc
elem-map f x (y ∷ l) h = ground (arith, text_eq_iff y x, text_eq_refl (f x), elem-map f x l)

length-map : {A B : Type 0} (f : A → B) (l : List A) → length (map f l) ≡ length l
length-map f [] = refl
length-map f (x ∷ l) = ap suc (length-map f l)

module _ (m : Manager) (name : Text) (home : Option Text) (reserved : List Text)
    (scope : HomeOk home) where
  abbrev scoped : Text → Text
  scoped candidate = resource_key candidate home

  all_taken : List Text
  all_taken = keys m.by_key ++ (keys m.provisioning ++ map scoped reserved)

  taken_in : (c : Text) → is_taken m home reserved c ≡ true → elem (scoped c) all_taken ≡ true
  unfolding all_taken
  taken_in c h = ground (
    arith,
    elem-append (scoped c) (keys m.by_key) (keys m.provisioning ++ map scoped reserved),
    elem-append (scoped c) (keys m.provisioning) (map scoped reserved),
    elem-keys m.by_key (scoped c),
    elem-keys m.provisioning (scoped c),
    elem-map scoped c reserved,
  )

  length-all_taken : length all_taken < rounds m reserved
  unfolding all_taken
  length-all_taken = omega (
    arith,
    length-append (keys m.by_key) (keys m.provisioning ++ map scoped reserved),
    length-append (keys m.provisioning) (map scoped reserved),
    length-keys m.by_key,
    length-keys m.provisioning,
    length-map scoped reserved,
  )

  -- The loop ends, and finds the first name of the sequence name, name-2, name-3 and so on that no
  -- kernel of the scope has, that no kernel being started will have, and that is not reserved.
  pub free_name-IsFirst :
      (n : ℕ) × (free_name m name home reserved ≡ numbered name n)
      × IsFirst (is_taken m home reserved) name 1 n
  unfolding free_name
  free_name-IsFirst =
      let (n, found, first) =
        search_total (is_taken m home reserved) name scoped
          (λ i j p q e.
            numbered-injective name i j p q (resource_key-injective _ _ home home scope scope e).0)
          (rounds m reserved) 1 all_taken (omega arith) (λ k a t. taken_in (numbered name k) t)
          length-all_taken in
      (n, rw found, first)
