-- ===== src/Proxy/LeafCache/Kept.antt =====
-- What every section keeps: one entry a host, at most the capacity, and each certificate made for its host.
use apt_cacher_ultra.Base.{
  ℕ, zero, suc, ◌+◌, ◌-◌, ◌≤◌, ◌≡◌, refl, ap, inl, inr, Bool, some, List, [], ◌∷◌, length, take,
  arith, Bool-cases, Bytes, bytes_eq, bytes_eq_iff, count_if, All, subst,
}
use apt_cacher_ultra.Proxy.LeafCache.{Entry, Cache, find_entry, unlink, drop_last}

abbrev pub is_of : {C : Type 0} → Bytes → Entry C → Bool
is_of h e = bytes_eq e.host h

-- Made says which certificates are made for a host.
pub record IsKept {C : Type 0} (Made : Bytes → C → Type 0) (c : Cache C) : Type 0 where
  pub room : 1 ≤ c.capacity
  pub bound : length c.items ≤ c.capacity
  pub once : (h : Bytes) → count_if (is_of h) c.items ≤ 1
  pub own : All (λ (e : Entry C). Made e.host e.cert) c.items

module _ {C : Type 0} (Made : Bytes → C → Type 0) where
  pub find_entry_own :
      (host : Bytes) (es : List (Entry C)) (e : Entry C)
      → All (λ (x : Entry C). Made x.host x.cert) es
      → find_entry host es ≡ some e
      → (e.host ≡ host) × Made host e.cert
  unfolding find_entry
  find_entry_own host [] e own f = cc f
  find_entry_own host (x ∷ es) e own f = elim (Bool-cases (bytes_eq x.host host)) [
    | inl a ↦
        let found : some x ≡ some e = rw a at f in
        let same : x ≡ e = cc found in
        let name = (bytes_eq_iff x.host host).0 a in
        let made : Made host x.cert = subst (λ h. Made h x.cert) name own.0 in
        subst (λ (z : Entry C). (z.host ≡ host) × Made host z.cert) same (name, made)
    | inr a ↦ find_entry_own host es e own.1 (rw a at f)
  ]

  pub unlink_own :
      (host : Bytes) (es : List (Entry C))
      → All (λ (x : Entry C). Made x.host x.cert) es
      → All (λ (x : Entry C). Made x.host x.cert) (unlink host es)
  unfolding unlink
  unlink_own host [] own = tt
  unlink_own host (x ∷ es) own = elim (Bool-cases (bytes_eq x.host host)) [
    | inl a ↦ rw a own.1
    | inr a ↦ rw a (own.0, unlink_own host es own.1)
  ]

  pub drop_last_own :
      (es : List (Entry C))
      → All (λ (x : Entry C). Made x.host x.cert) es
      → All (λ (x : Entry C). Made x.host x.cert) (drop_last es)
  unfolding drop_last
  drop_last_own [] own = tt
  drop_last_own (e ∷ []) own = tt
  drop_last_own (e ∷ f ∷ es) own = (own.0, drop_last_own (f ∷ es) own.1)

module _ {C : Type 0} where
  pub unlink-count :
      (host h : Bytes) (es : List (Entry C))
      → count_if (is_of h) (unlink host es) ≤ count_if (is_of h) es
  unfolding unlink count_if
  unlink-count host h [] = omega arith
  unlink-count host h (x ∷ es) = ground (arith, unlink-count host h es)

  pub unlink-gone :
      (host : Bytes) (es : List (Entry C))
      → count_if (is_of host) es ≤ 1
      → count_if (is_of host) (unlink host es) ≡ 0
  unfolding unlink count_if
  unlink-gone host [] h = refl
  unlink-gone host (x ∷ es) h = elim (Bool-cases (bytes_eq x.host host)) [
    | inl a ↦ ground (arith, a, h)
    | inr a ↦ ground (arith, a, unlink-gone host es (ground (arith, a, h)))
  ]

  pub unlink-length : (host : Bytes) (es : List (Entry C)) → length (unlink host es) ≤ length es
  unfolding unlink
  unlink-length host [] = omega arith
  unlink-length host (x ∷ es) = ground (arith, unlink-length host es)

  pub found-length :
      (host : Bytes) (es : List (Entry C)) (e : Entry C)
      → find_entry host es ≡ some e
      → length (unlink host es) + 1 ≡ length es
  unfolding unlink find_entry
  found-length host [] e f = cc f
  found-length host (x ∷ es) e f = elim (Bool-cases (bytes_eq x.host host)) [
    | inl a ↦ rw a (omega arith)
    | inr a ↦ rw a (omega (arith, found-length host es e (rw a at f)))
  ]

  pub drop_last-take : (n : ℕ) (es : List (Entry C)) → length es ≡ suc n → drop_last es ≡ take n es
  unfolding drop_last
  drop_last-take n [] h = absurd (omega (arith, h))
  drop_last-take zero (e ∷ []) h = refl
  drop_last-take (suc n) (e ∷ []) h = absurd (omega (arith, h))
  drop_last-take zero (e ∷ f ∷ es) h = absurd (omega (arith, h))
  drop_last-take (suc n) (e ∷ f ∷ es) h = ap (◌∷◌ e) (drop_last-take n (f ∷ es) (omega (arith, h)))

  pub take_all : (n : ℕ) (es : List (Entry C)) → length es ≤ n → take n es ≡ es
  take_all zero [] h = refl
  take_all zero (e ∷ es) h = absurd (omega (arith, h))
  take_all (suc n) [] h = refl
  take_all (suc n) (e ∷ es) h = ap (◌∷◌ e) (take_all n es (omega (arith, h)))

  pub drop_last-count :
      (h : Bytes) (es : List (Entry C)) → count_if (is_of h) (drop_last es) ≤ count_if (is_of h) es
  unfolding drop_last count_if
  drop_last-count h [] = omega arith
  drop_last-count h (e ∷ []) = omega arith
  drop_last-count h (e ∷ f ∷ es) = ground (arith, drop_last-count h (f ∷ es))

  pub drop_last-length : (es : List (Entry C)) → length (drop_last es) ≡ length es - 1
  unfolding drop_last
  drop_last-length [] = refl
  drop_last-length (e ∷ []) = refl
  drop_last-length (e ∷ f ∷ es) = omega (arith, drop_last-length (f ∷ es))
