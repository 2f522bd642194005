-- ===== src/Auth/Editor/Edits.antt =====
-- src/passman/core/auth/strategy_editor.py: what each edit of the list does, and how it is undone.
use ash_password_manager.Common.{
  ℕ, zero, suc, ◌≤◌, ◌<◌, Bool, some, List, [], ◌∷◌, ◌≡◌, ◌≢◌, refl, sym, ap, ◌∙◌, inl, inr, arith,
  length, get_elem?, set, length-set, get_elem?-set_self, get_elem?-set_ne, set-set_self,
  set-get_elem?, get_elem?-some, count_if, count_if-set, Bool-cases, ◌==◌, eqb→eq,
}
use ash_password_manager.Common.Ints.{ℤ, pos, negsuc, ◌+ℤ◌}
use ash_password_manager.Auth.Strategy.{AuthStep}
use ash_password_manager.Auth.Editor.{
  insert_at, delete_at, in_range, clamp, add_step, remove_step, duplicate_step, swap_at,
  move_between, move_step,
}

delete-insert {ℓ} :
    {A : Type ℓ} (i : ℕ) (x : A) (xs : List A) → i ≤ length xs → delete_at i (insert_at i x xs) ≡ xs
delete-insert zero x xs h = refl
delete-insert (suc i) x [] h = absurd (omega arith)
delete-insert (suc i) x (y ∷ xs) h = ap (λ ys. y ∷ ys) (delete-insert i x xs (omega arith))

length-insert {ℓ} :
    {A : Type ℓ} (i : ℕ) (x : A) (xs : List A) → length (insert_at i x xs) ≡ suc (length xs)
length-insert zero x xs = refl
length-insert (suc i) x [] = refl
length-insert (suc i) x (y ∷ xs) = ap suc (length-insert i x xs)

clamp-le : (index : ℤ) (n : ℕ) → clamp index n ≤ n
clamp-le (pos i) n = ground arith
clamp-le (negsuc i) n = omega arith

remove-at :
    (steps : List AuthStep) (i : ℕ)
    → i < length steps
    → remove_step steps (pos i) ≡ delete_at i steps
unfolding remove_step
remove-at steps i h = ground arith

-- Removing a step at the place where it was added gives the old list back, wherever that is.
remove-add :
    (steps : List AuthStep) (s : AuthStep) (index : ℤ)
    → remove_step (add_step steps s (some index)) (pos (clamp index (length steps))) ≡ steps
unfolding add_step
remove-add steps s index =
    let i = clamp index (length steps) in
    remove-at (insert_at i s steps) i
      (omega (arith, length-insert {0} i s steps, clamp-le index (length steps)))
    ∙ delete-insert i s steps (clamp-le index (length steps))

duplicate-insert :
    (steps : List AuthStep) (i : ℕ) (s : AuthStep)
    → i < length steps
    → get_elem? steps i ≡ some s
    → duplicate_step steps (pos i) ≡ insert_at (suc i) s steps
unfolding duplicate_step
duplicate-insert steps i s h e = ground arith

get_elem?-insert {ℓ} :
    {A : Type ℓ} (i : ℕ) (x : A) (xs : List A)
    → i ≤ length xs
    → get_elem? (insert_at i x xs) i ≡ some x
get_elem?-insert zero x xs h = refl
get_elem?-insert (suc i) x [] h = absurd (omega arith)
get_elem?-insert (suc i) x (y ∷ xs) h = get_elem?-insert i x xs (omega arith)

-- A copy stands behind its original, and removing the copy gives the old list back; and where a step
-- is added, at any index, removing it at the place where it then stands gives the old list back.
pub remove_undoes :
    (steps : List AuthStep) (s : AuthStep) (index : ℤ) (i : ℕ)
    → i < length steps
    → (get_elem? (duplicate_step steps (pos i)) (suc i) ≡ get_elem? steps i)
      × (remove_step (duplicate_step steps (pos i)) (pos (suc i)) ≡ steps)
      × (remove_step (add_step steps s (some index)) (pos (clamp index (length steps))) ≡ steps)
remove_undoes steps s index i h =
    let (t, e) = get_elem?-some steps i h in
    let copied = duplicate-insert steps i t h e in
    (
      rw copied (get_elem?-insert (suc i) t steps h ∙ sym e),
      rw copied (
          remove-at (insert_at (suc i) t steps) (suc i)
            (omega (arith, length-insert {0} (suc i) t steps))
          ∙ delete-insert (suc i) t steps h),
      remove-add steps s index,
    )

move-swap :
    (steps : List AuthStep) (i j : ℕ) (direction : ℤ)
    → i < length steps
    → j < length steps
    → pos i +ℤ direction ≡ pos j
    → move_step steps (pos i) direction ≡ swap_at i j (get_elem? steps i) (get_elem? steps j) steps
unfolding move_step
move-swap steps i j direction low high target =
    let n = length steps in
    let from : in_range (pos i) n ≡ some i = ground arith in
    let to : in_range (pos i +ℤ direction) n ≡ some j =
      ap (λ t. in_range t n) target ∙ (ground arith) in
    ap (λ a. move_between a (in_range (pos i +ℤ direction) n) steps) from
    ∙ ap (λ b. move_between (some i) b steps) to

module _ (steps : List AuthStep) (i j : ℕ) (low : i < length steps) (high : j < length steps)
    {a b : AuthStep} (at_i : get_elem? steps i ≡ some a) (at_j : get_elem? steps j ≡ some b) where
  abbrev swapped : List AuthStep
  swapped = set (set steps i b) j a

  swapped_at_j : get_elem? swapped j ≡ some a
  swapped_at_j = get_elem?-set_self (set steps i b) j a (omega (arith, length-set {0} steps i b))

  first_at_j : get_elem? (set steps i b) j ≡ some b
  first_at_j = elim (Bool-cases (i == j)) [
    | inl same ↦ let e : i ≡ j = eqb→eq i j same in rw (← e) (get_elem?-set_self steps i b low)
    | inr other ↦ get_elem?-set_ne steps i j b (λ e. ground arith) ∙ at_j
  ]

  swapped_at_i : get_elem? swapped i ≡ some b
  swapped_at_i = elim (Bool-cases (i == j)) [
    | inl same ↦
        let e : i ≡ j = eqb→eq i j same in
        let ab : a ≡ b = cc (at_i, at_j, ap (λ (k : ℕ). get_elem? steps k) e) in
        ap (λ k. get_elem? swapped k) e ∙ swapped_at_j ∙ ap (λ (x : AuthStep). some x) ab
    | inr other ↦
        get_elem?-set_ne (set steps i b) j i a (λ e. ground arith)
        ∙ get_elem?-set_self steps i b low
  ]

  -- Two swaps of the same places are none.
  swapped_back : set (set swapped j b) i a ≡ steps
  swapped_back =
      ap (λ xs. set xs i a)
        (set-set_self (set steps i b) j a b ∙ set-get_elem? (set steps i b) j b first_at_j)
      ∙ set-set_self steps i b a
      ∙ set-get_elem? steps i a at_i

  swapped_count : (p : AuthStep → Bool) → count_if p swapped ≡ count_if p steps
  swapped_count p =
      omega
        (arith, count_if-set p steps i a b at_i, count_if-set p (set steps i b) j b a first_at_j)

-- Moving a step to another place inside the list exchanges the two steps and keeps all others, so for
-- every test as many steps pass it as before; and moving it back gives the old list.
pub move_step_lem :
    (steps : List AuthStep) (i j : ℕ) (direction back : ℤ)
    → i < length steps
    → j < length steps
    → pos i +ℤ direction ≡ pos j
    → pos j +ℤ back ≡ pos i
    → let moved = move_step steps (pos i) direction in
      (get_elem? moved j ≡ get_elem? steps i)
      × (get_elem? moved i ≡ get_elem? steps j)
      × ((k : ℕ) → i ≢ k → j ≢ k → get_elem? moved k ≡ get_elem? steps k)
      × ((p : AuthStep → Bool) → count_if p moved ≡ count_if p steps)
      × (move_step moved (pos j) back ≡ steps)
move_step_lem steps i j direction back low high target return =
    let (a, ea) = get_elem?-some steps i low in
    let (b, eb) = get_elem?-some steps j high in
    let moves : move_step steps (pos i) direction ≡ swapped steps i j low high ea eb =
      move-swap steps i j direction low high target ∙ rw (ea, eb) in
    rw moves (
      swapped_at_j steps i j low high ea eb ∙ sym ea,
      swapped_at_i steps i j low high ea eb ∙ sym eb,
      λ k ni nj. get_elem?-set_ne (set steps i b) j k a nj ∙ get_elem?-set_ne steps i k b ni,
      swapped_count steps i j low high ea eb,
      move-swap (swapped steps i j low high ea eb) j i back
            (omega (arith, length-set {0} (set steps i b) j a, length-set {0} steps i b))
            (omega (arith, length-set {0} (set steps i b) j a, length-set {0} steps i b)) return
          ∙ rw (swapped_at_j steps i j low high ea eb, swapped_at_i steps i j low high ea eb)
              (swapped_back steps i j low high ea eb),
    )
