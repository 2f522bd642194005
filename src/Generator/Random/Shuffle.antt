-- ===== src/Generator/Random/Shuffle.antt =====
-- src/passman/core/generator/random_generator.py: what every generated password has.
use ash_password_manager.Common.{
  ℕ, zero, suc, ◌+◌, ◌-◌, ◌≤◌, ◌<◌, Bool, true, false, not, ◌&&◌, Option, none, some, List, [], ◌∷◌,
  ◌++◌, keep, elem, length, length-append, length-set, get_elem?, get_elem?-set_self,
  get_elem?-set_ne, count_if, count_if-set, set, ltb, ◌==◌, eqb→eq, eqb_refl, Bytes, Bool-cases,
  All, inl, inr, ◌≡◌, refl, ap, ◌∙◌, arith, subst,
}
use ash_password_manager.Generator.Random.{
  Csprng, RandomPasswordPolicy, is_filled, char_at, exchanged, choice, choices, repeated,
  usable_symbols, shuffle_from, drawn, alphabet, classes, generate_random_password,
}

-- The same length, and as many characters of every kind.
abbrev pub IsReordered : Bytes → Bytes → Type 0
IsReordered xs ys = (length ys ≡ length xs) × ((p : ℕ → Bool) → count_if p ys ≡ count_if p xs)

exchange_count :
    (p : ℕ → Bool) (xs : Bytes) (i j a b : ℕ)
    → get_elem? xs i ≡ some a
    → get_elem? (set xs i b) j ≡ some b
    → count_if p (set (set xs i b) j a) ≡ count_if p xs
exchange_count p xs i j a b at_i at_j =
    omega (arith, count_if-set p xs i a b at_i, count_if-set p (set xs i b) j b a at_j)

index-lt : (xs : Bytes) (i a : ℕ) → get_elem? xs i ≡ some a → i < length xs
index-lt [] i a h = absurd (cc h)
index-lt (x ∷ xs) zero a h = omega arith
index-lt (x ∷ xs) (suc i) a h = omega (arith, index-lt xs i a h)

first_at :
    (xs : Bytes) (i j a b : ℕ)
    → get_elem? xs i ≡ some a
    → get_elem? xs j ≡ some b
    → get_elem? (set xs i b) j ≡ some b
first_at xs i j a b at_i at_j = elim (Bool-cases (i == j)) [
  | inl same ↦
      subst (λ k. get_elem? (set xs i b) k ≡ some b) (eqb→eq i j same)
        (get_elem?-set_self xs i b (index-lt xs i a at_i))
  | inr other ↦ get_elem?-set_ne xs i j b (λ e. ground arith) ∙ at_j
]

exchanged-IsReordered :
    (xs : Bytes) (i j : ℕ) (o q : Option ℕ)
    → get_elem? xs i ≡ o
    → get_elem? xs j ≡ q
    → IsReordered xs (exchanged xs i j o q)
exchanged-IsReordered xs i j none q e f = (refl, λ p. refl)
exchanged-IsReordered xs i j (some a) none e f = (refl, λ p. refl)
exchanged-IsReordered xs i j (some a) (some b) e f = (
  length-set (set xs i b) j a ∙ length-set xs i b,
  λ p. exchange_count p xs i j a b e (first_at xs i j a b e f),
)

-- What is drawn from a class is in it.
char_at-elem : (cs : Bytes) (i : ℕ) → i < length cs → elem (char_at cs i) cs ≡ true
char_at-elem [] i h = absurd (omega arith)
char_at-elem (c ∷ cs) zero h = ground (arith, eqb_refl c)
char_at-elem (c ∷ cs) (suc i) h = ground (arith, char_at-elem cs i (omega arith))

filled_lt : (cs : Bytes) → is_filled cs ≡ true → 0 < length cs
filled_lt [] h = absurd (cc h)
filled_lt (c ∷ cs) h = omega arith

count_if-append :
    (p : ℕ → Bool) (xs ys : Bytes) → count_if p (xs ++ ys) ≡ count_if p xs + count_if p ys
count_if-append p [] ys = omega arith
count_if-append p (x ∷ xs) ys = ground (arith, count_if-append p xs ys)

ge→ltb : (n m : ℕ) → m ≤ n → ltb n m ≡ false
ge→ltb n m h = ground arith

filled_kept : (css : List Bytes) → All (λ c. is_filled c ≡ true) (keep is_filled css)
filled_kept [] = tt
filled_kept (cs ∷ css) = elim (Bool-cases (is_filled cs)) [
  | inl filled ↦ rw filled (filled, filled_kept css)
  | inr empty ↦ rw empty (filled_kept css)
]

length-keep : (css : List Bytes) → length (keep is_filled css) ≤ length css
length-keep [] = omega arith
length-keep (cs ∷ css) = ground (arith, length-keep css)

module _ (rng : Csprng) where
  shuffle-IsReordered : (i draw : ℕ) (xs : Bytes) → IsReordered xs (shuffle_from rng i draw xs)
  shuffle-IsReordered zero draw xs = (refl, λ p. refl)
  shuffle-IsReordered (suc i) draw xs =
      let j = rng.below draw (suc i + 1) in
      let ys = exchanged xs (suc i) j (get_elem? xs (suc i)) (get_elem? xs j) in
      let step =
        exchanged-IsReordered xs (suc i) j (get_elem? xs (suc i)) (get_elem? xs j) refl refl in
      let rest = shuffle-IsReordered i (suc draw) ys in (rest.0 ∙ step.0, λ p. rest.1 p ∙ step.1 p)

  length-choices : (draw : ℕ) (css : List Bytes) → length (choices rng draw css) ≡ length css
  length-choices draw [] = refl
  length-choices draw (cs ∷ css) = ap suc (length-choices (suc draw) css)

  length-repeated : (draw n : ℕ) (cs : Bytes) → length (repeated rng draw n cs) ≡ n
  length-repeated draw zero cs = refl
  length-repeated draw (suc n) cs = ap suc (length-repeated (suc draw) n cs)

  -- Each class has a character among `xs`.
  abbrev pub Covers : List Bytes → Bytes → Type 0
  Covers css xs = All (λ cs. 1 ≤ count_if (λ c. elem c cs) xs) css

  choices-hit : (draw : ℕ) (cs : Bytes) → is_filled cs ≡ true → elem (choice rng draw cs) cs ≡ true
  choices-hit draw cs h =
      char_at-elem cs (rng.below draw (length cs)) (rng.bound draw (length cs) (filled_lt cs h))

  Covers-cons : (x : ℕ) (css : List Bytes) (xs : Bytes) → Covers css xs → Covers css (x ∷ xs)
  Covers-cons x [] xs h = tt
  Covers-cons x (cs ∷ css) xs (h, k) = (ground arith, Covers-cons x css xs k)

  choices-Covers :
      (draw : ℕ) (css : List Bytes)
      → All (λ cs. is_filled cs ≡ true) css
      → Covers css (choices rng draw css)
  choices-Covers draw [] h = tt
  choices-Covers draw (cs ∷ css) (h, k) = (
    rw (choices-hit draw cs h) (omega arith),
    Covers-cons (choice rng draw cs) css (choices rng (suc draw) css)
        (choices-Covers (suc draw) css k),
  )

  Covers-more :
      (css : List Bytes) (xs ys : Bytes)
      → ((p : ℕ → Bool) → count_if p xs ≤ count_if p ys)
      → Covers css xs
      → Covers css ys
  Covers-more [] xs ys f h = tt
  Covers-more (cs ∷ css) xs ys f (h, k) =
      (omega (arith, f (λ c. elem c cs)), Covers-more css xs ys f k)

  drawn-length :
      (len : ℕ) (css : List Bytes) (cs : Bytes)
      → length css ≤ len
      → length (drawn rng len css cs) ≡ len
  drawn-length len css cs h = omega (
    arith,
    length-append {0} (choices rng 0 css) (repeated rng (length css) (len - length css) cs),
    length-choices 0 css,
    length-repeated (length css) (len - length css) cs,
  )

  drawn-Covers :
      (len : ℕ) (css : List Bytes) (cs : Bytes)
      → All (λ c. is_filled c ≡ true) css
      → Covers css (drawn rng len css cs)
  drawn-Covers len css cs h =
      Covers-more css (choices rng 0 css) (drawn rng len css cs)
        (λ p. omega (
          arith,
          count_if-append p (choices rng 0 css) (repeated rng (length css) (len - length css) cs),
        ))
        (choices-Covers 0 css h)

  shuffled :
      (len : ℕ) (css : List Bytes) (cs : Bytes) (i draw : ℕ)
      → All (λ c. is_filled c ≡ true) css
      → length css ≤ len
      → let password = shuffle_from rng i draw (drawn rng len css cs) in
        (length password ≡ len) × Covers css password
  shuffled len css cs i draw filled fits =
      let result = drawn rng len css cs in
      let same = shuffle-IsReordered i draw result in
      (
        same.0 ∙ drawn-length len css cs fits,
        Covers-more css result (shuffle_from rng i draw result) (λ p. omega (arith, same.1 p))
            (drawn-Covers len css cs filled),
      )

  -- The conditions that the code checks.
  abbrev pub IsSatisfiable : RandomPasswordPolicy → Type 0
  IsSatisfiable p =
      (is_filled (alphabet p) ≡ true)
      × (1 ≤ p.len)
      × ((p.use_symbols && not (is_filled (usable_symbols p))) ≡ false)
      × (length (classes p) ≤ p.len)

  -- Where the alphabet is not empty, the selected symbols are not, and the length is positive and at
  -- least the number of the selected classes, whatever is drawn: a password is returned, of that
  -- length, and with at least one character of each of the classes that have any; the shuffle, which
  -- only exchanges characters, does not lose it.
  pub generate_random_password-Covers :
      (p : RandomPasswordPolicy)
      → IsSatisfiable p
      → (password : Bytes) × (generate_random_password rng p ≡ inr password)
        × (length password ≡ p.len)
        × Covers (keep is_filled (classes p)) password
  unfolding generate_random_password
  generate_random_password-Covers p (letters, positive, symbols, fits) =
      let css = keep is_filled (classes p) in
      let result = drawn rng p.len css (alphabet p) in
      let (long, covers) =
        shuffled p.len css (alphabet p) (length result - 1) (length result)
          (filled_kept (classes p)) (omega (arith, length-keep (classes p))) in
      (
        shuffle_from rng (length result - 1) (length result) result,
        rw (letters, ge→ltb p.len 1 positive, symbols, ge→ltb p.len (length (classes p)) fits) refl,
        long,
        covers,
      )
