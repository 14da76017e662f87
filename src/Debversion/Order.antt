-- ===== src/Debversion/Order.antt =====
-- The lexicographic order of keys is a total preorder.
use apt_cacher_ultra.Base.{
  ℕ, ◌≡◌, refl, ◌≢◌, List, [], ◌∷◌, if◌then◌else◌, arith, pos, negsuc, neg, is_zero, ℤ, ◌⊎◌,
}
use apt_cacher_ultra.Debversion.Key.{by, lex}

pub lex_swap : (xs ys : List ℕ) → lex ys xs ≡ neg (lex xs ys)
unfolding lex
lex_swap [] [] = refl
lex_swap (x ∷ xs) [] = ground (arith, lex_swap xs [])
lex_swap [] (y ∷ ys) = ground (arith, lex_swap [] ys)
lex_swap (x ∷ xs) (y ∷ ys) = ground (arith, lex_swap xs ys)

-- The result is a sign.
abbrev pub IsSign : ℤ → Type 0
IsSign r = (r ≡ negsuc 0) ⊎ (r ≡ pos 0) ⊎ (r ≡ pos 1)

pub lex-IsSign : (xs ys : List ℕ) → IsSign (lex xs ys)
unfolding lex
lex-IsSign [] [] = ground arith
lex-IsSign (x ∷ xs) [] = ground (arith, lex-IsSign xs [])
lex-IsSign [] (y ∷ ys) = ground (arith, lex-IsSign [] ys)
lex-IsSign (x ∷ xs) (y ∷ ys) = ground (arith, lex-IsSign xs ys)

-- What the first two comparisons give for the third, when neither finds its left side larger.
abbrev chain : ℤ → ℤ → ℤ
chain r s = if is_zero r then s else r

by_trans :
    (x y z : ℕ) {r s t : ℤ}
    → IsSign r
    → IsSign s
    → (r ≢ pos 1 → s ≢ pos 1 → t ≡ chain r s)
    → by x y r ≢ pos 1
    → by y z s ≢ pos 1
    → by x z t ≡ chain (by x y r) (by y z s)
by_trans x y z g h step p q = ground arith

pub lex_trans :
    (xs ys zs : List ℕ)
    → lex xs ys ≢ pos 1
    → lex ys zs ≢ pos 1
    → lex xs zs ≡ (if is_zero (lex xs ys) then lex ys zs else lex xs ys)
unfolding lex
lex_trans [] [] [] p q = refl
lex_trans (x ∷ xs) [] [] p q =
    by_trans x 1 1 (lex-IsSign xs []) (lex-IsSign [] []) (lex_trans xs [] []) p q
lex_trans [] (y ∷ ys) [] p q =
    by_trans 1 y 1 (lex-IsSign [] ys) (lex-IsSign ys []) (lex_trans [] ys []) p q
lex_trans (x ∷ xs) (y ∷ ys) [] p q =
    by_trans x y 1 (lex-IsSign xs ys) (lex-IsSign ys []) (lex_trans xs ys []) p q
lex_trans [] [] (z ∷ zs) p q =
    by_trans 1 1 z (lex-IsSign [] []) (lex-IsSign [] zs) (lex_trans [] [] zs) p q
lex_trans (x ∷ xs) [] (z ∷ zs) p q =
    by_trans x 1 z (lex-IsSign xs []) (lex-IsSign [] zs) (lex_trans xs [] zs) p q
lex_trans [] (y ∷ ys) (z ∷ zs) p q =
    by_trans 1 y z (lex-IsSign [] ys) (lex-IsSign ys zs) (lex_trans [] ys zs) p q
lex_trans (x ∷ xs) (y ∷ ys) (z ∷ zs) p q =
    by_trans x y z (lex-IsSign xs ys) (lex-IsSign ys zs) (lex_trans xs ys zs) p q
