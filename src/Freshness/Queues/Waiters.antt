-- ===== src/Freshness/Queues/Waiters.antt =====
-- The waiting lists: oldest first, and the oldest that may go is the one offered.
use apt_cacher_ultra.Base.{
  ℕ, zero, suc, ◌≤◌, ◌≡◌, inl, inr, Bool, true, false, not, ◌&&◌, Option, none, some, List, [], ◌∷◌,
  arith, elem_at, subst, Bool-cases, Option-cases, leb, leb→le, All,
}
use apt_cacher_ultra.Freshness.Queues.{SchedItem, take_waiter, insert_waiter, each_item}

-- Every waiter came after this.
abbrev pub Behind : ℕ → List SchedItem → Type 0
Behind n ws = All (λ (w : SchedItem). n ≤ w.wait_seq) ws

abbrev pub IsSorted : List SchedItem → Type 0
IsSorted [] = Unit
IsSorted (w ∷ ws) = Behind w.wait_seq ws × IsSorted ws

later_too : (m n : ℕ) (ws : List SchedItem) → m ≤ n → Behind n ws → Behind m ws
later_too m n [] h b = tt
later_too m n (w ∷ ws) h b = (omega (arith, h, b.0), later_too m n ws h b.1)

all_later_insert :
    (n : ℕ) (x : SchedItem) (ws : List SchedItem)
    → n ≤ x.wait_seq
    → Behind n ws
    → Behind n (insert_waiter x ws)
unfolding insert_waiter
all_later_insert n x [] h b = (h, tt)
all_later_insert n x (w ∷ ws) h b = elim (Bool-cases (leb x.wait_seq w.wait_seq)) [
  | inl a ↦ rw a (h, (b.0, b.1))
  | inr a ↦ rw a (b.0, all_later_insert n x ws h b.1)
]

-- A parked suite goes behind those that came before it, and the list stays in order.
pub insert_waiter-IsSorted :
    (x : SchedItem) (ws : List SchedItem) → IsSorted ws → IsSorted (insert_waiter x ws)
unfolding insert_waiter
insert_waiter-IsSorted x [] s = (tt, tt)
insert_waiter-IsSorted x (w ∷ ws) s = elim (Bool-cases (leb x.wait_seq w.wait_seq)) [
  | inl a ↦
      let le = leb→le x.wait_seq w.wait_seq a in
      rw a ((le, later_too x.wait_seq w.wait_seq ws le s.0), s)
  | inr a ↦
      rw a
        (all_later_insert w.wait_seq x ws (ground (arith, a)) s.0, insert_waiter-IsSorted x ws s.1)
]

abbrev pub may_go : (Bool → Bool) → SchedItem → Bool
may_go admit w = not w.held && admit w.signed

later_at :
    (n : ℕ) (ws : List SchedItem) (j : ℕ) (v : SchedItem)
    → Behind n ws
    → elem_at j ws ≡ some v
    → n ≤ v.wait_seq
unfolding elem_at
later_at n [] j v b e = cc e
later_at n (w ∷ ws) zero v b e =
    let same : w ≡ v = cc e in subst (λ (z : SchedItem). n ≤ z.wait_seq) same b.0
later_at n (w ∷ ws) (suc j) v b e = later_at n ws j v b.1 e

-- What is said of the waiter taken from a list, and of the others.
unfoldable pub IsOldest :
    (Bool → Bool) → List SchedItem → Option (SchedItem × List SchedItem) → Type 0
IsOldest admit ws none = Unit
IsOldest admit ws (some (w, rest)) =
    (may_go admit w ≡ true)
    × IsSorted rest
    × ((n : ℕ) → Behind n ws → Behind n rest)
    × ((j : ℕ) (v : SchedItem)
        → elem_at j ws ≡ some v
        → may_go admit v ≡ true
        → w.wait_seq ≤ v.wait_seq)

-- The first may go: no other came before it.
at_head :
    (x : SchedItem) (ws : List SchedItem)
    → Behind x.wait_seq ws
    → (j : ℕ) (v : SchedItem) → elem_at j (x ∷ ws) ≡ some v
    → x.wait_seq ≤ v.wait_seq
at_head x ws b j v e = later_at x.wait_seq (x ∷ ws) j v (omega arith, b) e

-- The first may not go.
at_tail :
    (admit : Bool → Bool) (n : ℕ) (x : SchedItem) (ws : List SchedItem)
    → may_go admit x ≡ false
    → ((j : ℕ) (v : SchedItem) → elem_at j ws ≡ some v → may_go admit v ≡ true → n ≤ v.wait_seq)
    → (j : ℕ) (v : SchedItem) → elem_at j (x ∷ ws) ≡ some v
    → may_go admit v ≡ true
    → n ≤ v.wait_seq
unfolding elem_at
at_tail admit n x ws stays h zero v e go =
    let same : x ≡ v = cc e in cc (subst (λ (z : SchedItem). may_go admit z ≡ false) same stays, go)
at_tail admit n x ws stays h (suc j) v e go = h j v e go

pub take_waiter-IsOldest :
    (admit : Bool → Bool) (ws : List SchedItem)
    → IsSorted ws
    → IsOldest admit ws (take_waiter admit ws)
unfolding take_waiter IsOldest elem_at
take_waiter-IsOldest admit [] s = tt
take_waiter-IsOldest admit (x ∷ ws) s =
    let rest = take_waiter-IsOldest admit ws s.1 in
    elim (Bool-cases (may_go admit x)) [
      | inl a ↦ rw a (a, s.1, λ n b. b.1, λ j v e go. at_head x ws s.0 j v e)
      | inr a ↦ elim (Option-cases (take_waiter admit ws)) [
        | inl e ↦ rw (a, e) tt
        | inr ((w, more), e) ↦
            let (go, sorted, fewer, oldest) = rw (e, IsOldest) at rest in
            rw (a, e)
              (
                go,
                (fewer x.wait_seq s.0, sorted),
                λ n b. (b.0, fewer n b.1),
                at_tail admit w.wait_seq x ws a oldest,
              )
      ]
    ]

each_item-Behind :
    (f : SchedItem → SchedItem) (n : ℕ) (ws : List SchedItem)
    → ((x : SchedItem) → (f x).wait_seq ≡ x.wait_seq)
    → Behind n ws
    → Behind n (each_item f ws)
unfolding each_item
each_item-Behind f n [] same b = tt
each_item-Behind f n (w ∷ ws) same b =
    (omega (arith, same w, b.0), each_item-Behind f n ws same b.1)

pub each_item-IsSorted :
    (f : SchedItem → SchedItem) (ws : List SchedItem)
    → ((x : SchedItem) → (f x).wait_seq ≡ x.wait_seq)
    → IsSorted ws
    → IsSorted (each_item f ws)
unfolding each_item
each_item-IsSorted f [] same s = tt
each_item-IsSorted f (w ∷ ws) same s =
    (rw (same w) (each_item-Behind f w.wait_seq ws same s.0), each_item-IsSorted f ws same s.1)
