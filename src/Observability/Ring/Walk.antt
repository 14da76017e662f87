-- ===== src/Observability/Ring/Walk.antt =====
-- What the loop of Snapshot reads out of a list that is stored backwards.
use apt_cacher_ultra.Base.{
  ℕ, zero, suc, ◌+◌, ◌<◌, ◌≡◌, refl, sym, ap, ◌∙◌, Option, some, List, [], ◌∷◌, ◌++◌, arith, length,
  length-append, append-nil, subst,
}
use apt_cacher_ultra.Observability.Ring.{store, before, read, prepend, walk_back}

before_wraps : (slots : ℕ) → 0 < slots → before slots 0 ≡ before slots slots
unfolding before
before_wraps zero h = absurd (omega arith)
before_wraps (suc slots) h = omega arith

module _ {ℓ} {A : Type ℓ} where
  -- The first list backwards, in front of the second.
  unfoldable pub onto : List A → List A → List A
  onto [] ys = ys
  onto (x ∷ xs) ys = onto xs (x ∷ ys)

  -- What the calls of Record were given, the last first.
  abbrev pub newest_first : List A → List A
  newest_first es = onto es []

  onto-append : (xs ys zs : List A) → onto (xs ++ ys) zs ≡ onto ys (onto xs zs)
  unfolding onto
  onto-append [] ys zs = refl
  onto-append (x ∷ xs) ys zs = onto-append xs ys (x ∷ zs)

  pub onto-nil : (xs ys : List A) → onto xs ys ≡ onto xs [] ++ ys
  unfolding onto
  onto-nil [] ys = refl
  onto-nil (x ∷ xs) ys =
      onto-nil xs (x ∷ ys)
      ∙ (sym (append_one (onto xs []) x ys) ∙ ap (λ zs. zs ++ ys) (sym (onto-nil xs (x ∷ []))))
    where
      append_one : (us : List A) (v : A) (ws : List A) → (us ++ (v ∷ [])) ++ ws ≡ us ++ (v ∷ ws)
      append_one [] v ws = refl
      append_one (u ∷ us) v ws = ap (◌∷◌ u) (append_one us v ws)

  pub onto_twice : (xs ys : List A) → onto (onto xs ys) [] ≡ onto ys xs
  unfolding onto
  onto_twice [] ys = refl
  onto_twice (x ∷ xs) ys = onto_twice xs (x ∷ ys)

  pub length-onto : (xs ys : List A) → length (onto xs ys) ≡ length xs + length ys
  unfolding onto
  length-onto [] ys = omega arith
  length-onto (x ∷ xs) ys = omega (arith, length-onto xs (x ∷ ys))

  -- The slot behind the first ones.
  read-append : (us : List A) (x : A) (ys : List A) → read (us ++ (x ∷ ys)) (length us) ≡ some x
  unfolding read
  read-append [] x ys = refl
  read-append (a ∷ us) x ys = read-append us x ys

  read-onto : (xs : List A) (x : A) (ys : List A) → read (onto xs (x ∷ ys)) (length xs) ≡ some x
  read-onto xs x ys = rw (onto-nil xs (x ∷ ys)) (
      subst (λ n. read (onto xs [] ++ (x ∷ ys)) n ≡ some x) (onto_length xs)
        (read-append (onto xs []) x ys))
    where
      onto_length : (zs : List A) → length (onto zs []) ≡ length zs
      onto_length zs = omega (arith, length-onto zs [])

  store-append :
      (us : List A) (x : A) (ys : List A) (e : A)
      → store (us ++ (x ∷ ys)) (length us) e ≡ some (us ++ (e ∷ ys))
  unfolding store
  store-append [] x ys e = refl
  store-append (a ∷ us) x ys e = rw (store-append us x ys e) refl

  pub store-onto :
      (xs : List A) (x : A) (ys : List A) (e : A)
      → store (onto xs (x ∷ ys)) (length xs) e ≡ some (onto xs (e ∷ ys))
  store-onto xs x ys e =
      rw (onto-nil xs (x ∷ ys), onto-nil xs (e ∷ ys))
        (subst (λ n. store (onto xs [] ++ (x ∷ ys)) n e ≡ some (onto xs [] ++ (e ∷ ys)))
          (onto_length xs) (store-append (onto xs []) x ys e))
    where
      onto_length : (zs : List A) → length (onto zs []) ≡ length zs
      onto_length zs = omega (arith, length-onto zs [])

  prepend_all : List A → Option (List A) → Option (List A)
  prepend_all [] o = o
  prepend_all (x ∷ xs) o = prepend (some x) (prepend_all xs o)

  prepend_all-some : (xs ys : List A) → prepend_all xs (some ys) ≡ some (xs ++ ys)
  unfolding prepend_all prepend
  prepend_all-some [] ys = refl
  prepend_all-some (x ∷ xs) ys = rw (prepend_all-some xs ys) refl

  walk_back_step :
      (slots n i : ℕ) (x : A) (buf : List A)
      → read buf i ≡ some x
      → walk_back slots (suc n) (before slots (suc i)) buf
        ≡ prepend (some x) (walk_back slots n (before slots i) buf)
  unfolding walk_back before
  walk_back_step slots n i x buf e = rw e refl

  -- The loop reads the front of a list that is stored backwards.
  walk_back-onto :
      (slots n : ℕ) (xs ys rest : List A)
      → walk_back slots
          (length xs + n)
          (before slots (length xs + length ys))
          (onto (xs ++ ys) rest)
        ≡ prepend_all xs (walk_back slots n (before slots (length ys)) (onto (xs ++ ys) rest))
  unfolding prepend_all onto
  walk_back-onto slots n [] ys rest =
      let no_more : 0 + n ≡ n = omega arith in
      let none_in_front : 0 + length ys ≡ length ys = omega arith in
      rw (no_more, none_in_front) refl
  walk_back-onto slots n (x ∷ xs) ys rest =
      let suc_sum : suc (length xs) + n ≡ suc (length xs + n) = omega arith in
      let suc_index : suc (length xs) + length ys ≡ suc (length xs + length ys) = omega arith in
      rw (suc_sum, suc_index)
        (walk_back_step slots (length xs + n) (length xs + length ys) x (onto (xs ++ ys) (x ∷ rest))
            here
          ∙ ap (prepend (some x)) (walk_back-onto slots n xs ys (x ∷ rest)))
    where
      here : read (onto (xs ++ ys) (x ∷ rest)) (length xs + length ys) ≡ some x
      here =
          subst (λ k. read (onto (xs ++ ys) (x ∷ rest)) k ≡ some x) (length-append xs ys)
            (read-onto (xs ++ ys) x rest)

  walk_then :
      (slots n : ℕ) (xs rest : List A)
      → walk_back slots (length xs + n) (before slots (length xs)) (onto xs rest)
        ≡ prepend_all xs (walk_back slots n (before slots 0) (onto xs rest))
  walk_then slots n xs rest =
      let whole : length xs + 0 ≡ length xs = omega arith in
      rw whole at (rw (append-nil xs) at (walk_back-onto slots n xs [] rest))

  pub walk_part :
      (slots : ℕ) (xs ys : List A)
      → walk_back slots (length xs) (before slots (length xs)) (onto xs ys) ≡ some xs
  unfolding walk_back
  walk_part slots xs ys =
      let whole : length xs + 0 ≡ length xs = omega arith in
      rw whole at (walk_then slots 0 xs ys) ∙ (prepend_all-some xs [] ∙ ap some (append-nil xs))

  -- The slots from the last one back to `length xs`.
  walk_older :
      (xs ys : List A)
      → 0 < length ys
      → walk_back
          (length xs + length ys)
          (length ys)
          (before (length xs + length ys) 0)
          (onto xs ys)
        ≡ some (onto ys [])
  unfolding walk_back
  walk_older xs ys h =
      let same : onto (onto ys [] ++ xs) [] ≡ onto xs ys =
        onto-append (onto ys []) xs [] ∙ ap (onto xs) (unfold onto in onto_twice ys []) in
      let many : length (onto ys []) ≡ length ys = omega (arith, length-onto ys []) in
      let all_slots : length (onto ys []) + length xs ≡ length xs + length ys = omega arith in
      let no_more : length (onto ys []) + 0 ≡ length ys = omega arith in
      rw (before_wraps (length xs + length ys) (omega arith)) (
        rw (same, all_slots, no_more) at
          (walk_back-onto (length xs + length ys) 0 (onto ys []) xs [])
        ∙ (prepend_all-some (onto ys []) [] ∙ ap some (append-nil (onto ys []))))

  -- A full ring: this round's slots backwards, then the rest.
  pub walk_whole :
      (xs ys : List A)
      → 0 < length ys
      → walk_back
          (length xs + length ys)
          (length xs + length ys)
          (before (length xs + length ys) (length xs))
          (onto xs ys)
        ≡ some (xs ++ onto ys [])
  walk_whole xs ys h =
      walk_then (length xs + length ys) (length ys) xs ys
      ∙ (ap (prepend_all xs) (walk_older xs ys h) ∙ prepend_all-some xs (onto ys []))
