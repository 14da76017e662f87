-- ===== src/Freshness/Queues/Keys.antt =====
-- How often a key is in a list of keys.
use apt_cacher_ultra.Base.{
  ℕ, ◌+◌, ◌≡◌, refl, inl, inr, false, List, [], ◌∷◌, ltb, if◌then◌else◌, arith, Bool-cases, Bytes,
  bytes_eq, bytes_eq_iff, length, count_if,
}
use apt_cacher_ultra.Cache.Newest.{is_in}
use apt_cacher_ultra.Freshness.Queues.{delete_key}

abbrev pub times : Bytes → List Bytes → ℕ
times k ks = count_if (λ x. bytes_eq x k) ks

pub is_in-times : (k : Bytes) (ks : List Bytes) → is_in k ks ≡ ltb 0 (times k ks)
unfolding is_in count_if
is_in-times k [] = refl
is_in-times k (x ∷ ks) = ground (arith, is_in-times k ks)

pub not_in-times : (k : Bytes) (ks : List Bytes) → is_in k ks ≡ false → times k ks ≡ 0
not_in-times k ks e = ground (arith, is_in-times k ks)

pub delete_key-times :
    (k j : Bytes) (ks : List Bytes)
    → times j (delete_key k ks) ≡ (if bytes_eq k j then 0 else times j ks)
unfolding delete_key count_if
delete_key-times k j [] = ground arith
delete_key-times k j (x ∷ ks) = elim (Bool-cases (bytes_eq x k)) [
  | inl a ↦ rw (a, (bytes_eq_iff x k).0 a, delete_key-times k j ks) (ground arith)
  | inr a ↦
      ground (arith, delete_key-times k j ks, bytes_eq_iff x j, bytes_eq_iff k j, bytes_eq_iff x k)
]

pub length-delete_key :
    (k : Bytes) (ks : List Bytes) → length (delete_key k ks) + times k ks ≡ length ks
unfolding delete_key count_if
length-delete_key k [] = refl
length-delete_key k (x ∷ ks) = ground (arith, length-delete_key k ks)
