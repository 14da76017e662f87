-- ===== src/Proxy/LeafCache/Runs.antt =====
-- The leaf cache in whatever order the calls of Get look, generate and insert.
use apt_cacher_ultra.Base.{
  ℕ, suc, ◌+◌, ◌≤◌, ◌≡◌, refl, sym, ap, inl, inr, false, Option, none, some, List, [], ◌∷◌, length,
  take, ltb, leb, if◌then◌else◌, arith, Bool-cases, Option-cases, Bytes, bytes_eq, bytes_eq_iff,
  count_if, subst, leb→le,
}
use apt_cacher_ultra.Proxy.LeafCache.{
  Entry, Cache, new_cache, find_entry, unlink, touch, is_past, is_expired, look_up_at, look_up,
  look_again_at, look_again, drop_last, insert,
}
use apt_cacher_ultra.Proxy.LeafCache.Kept.{
  is_of, IsKept, find_entry_own, unlink_own, drop_last_own, unlink-count, unlink-gone,
  unlink-length, found-length, drop_last-take, take_all, drop_last-count, drop_last-length,
}

module _ {C : Type 0} (Made : Bytes → C → Type 0) where
  touch-IsKept :
      (c : Cache C) (host : Bytes) (e : Entry C)
      → IsKept Made c
      → find_entry host c.items ≡ some e
      → IsKept Made (touch c e)
  unfolding touch count_if
  touch-IsKept c host e k f =
      let (name, made) = find_entry_own Made host c.items e k.own f in
      record {
        room = k.room;
        bound = rw name (omega (arith, k.bound, found-length host c.items e f));
        once = λ h. elim (Bool-cases (bytes_eq e.host h)) [
          | inl a ↦
              let gone = unlink-gone e.host c.items (k.once e.host) in
              let same =
                ap (λ z. count_if (is_of z) (unlink e.host c.items))
                  ((bytes_eq_iff e.host h).0 a) in
              rw a (omega (arith, gone, same))
          | inr a ↦ rw a (omega (arith, unlink-count e.host h c.items, k.once h))
        ];
        own = (subst (λ h. Made h e.cert) (sym name) made, unlink_own Made e.host c.items k.own);
      }

  evict-IsKept :
      (c : Cache C) (host : Bytes)
      → IsKept Made c
      → IsKept Made (record c { items = unlink host c.items })
  evict-IsKept c host k = record {
    room = k.room;
    bound = omega (arith, k.bound, unlink-length host c.items);
    once = λ h. omega (arith, unlink-count host h c.items, k.once h);
    own = unlink_own Made host c.items k.own;
  }

  pub insert-IsKept :
      (c : Cache C) (host : Bytes) (cert : C) (now : ℕ)
      → IsKept Made c
      → Made host cert
      → IsKept Made (insert c host cert now)
  unfolding insert count_if
  insert-IsKept c host cert now k made =
      let others = unlink host c.items in
      let fewer = unlink-length host c.items in
      let gone = unlink-gone host c.items (k.once host) in
      let once_with : (kept : List (Entry C))
          → ((h : Bytes) → count_if (is_of h) kept ≤ count_if (is_of h) others)
          → (h : Bytes) → (if bytes_eq host h then 1 else 0) + count_if (is_of h) kept ≤ 1 =
        λ kept less h. elim (Bool-cases (bytes_eq host h)) [
          | inl a ↦
              let same = ap (λ z. count_if (is_of z) others) ((bytes_eq_iff host h).0 a) in
              rw a (omega (arith, gone, same, less h))
          | inr a ↦ rw a (omega (arith, less h, unlink-count host h c.items, k.once h))
        ] in
      elim (Bool-cases (leb c.capacity (length others))) [
        | inl a ↦ rw a (record {
          room = k.room;
          bound = omega (arith, drop_last-length others, fewer, k.bound, k.room);
          once = once_with (drop_last others) (λ h. drop_last-count h others);
          own = (made, drop_last_own Made others (unlink_own Made host c.items k.own));
        })
        | inr a ↦ rw a (record {
          room = k.room;
          bound = ground (arith, a);
          once = once_with others (λ h. omega arith);
          own = (made, unlink_own Made host c.items k.own);
        })
      ]

  look_up-IsKept :
      (not_after : C → Option ℕ) (c : Cache C) (host : Bytes) (now : ℕ) (o : Option (Entry C))
      → IsKept Made c
      → find_entry host c.items ≡ o
      → IsKept Made (look_up_at not_after c o now).0
  unfolding look_up_at
  look_up-IsKept not_after c host now none k f = k
  look_up-IsKept not_after c host now (some e) k f =
      elim (Bool-cases (is_expired not_after e now)) [
        | inl a ↦ rw a (evict-IsKept c e.host k)
        | inr a ↦ rw a (touch-IsKept c host e k f)
      ]

  look_again-IsKept :
      (not_after : C → Option ℕ) (c : Cache C) (host : Bytes) (now : ℕ) (o : Option (Entry C))
      → IsKept Made c
      → find_entry host c.items ≡ o
      → IsKept Made (look_again_at not_after c o now).0
  unfolding look_again_at
  look_again-IsKept not_after c host now none k f = k
  look_again-IsKept not_after c host now (some e) k f =
      elim (Bool-cases (is_expired not_after e now)) [
        | inl a ↦ rw a k
        | inr a ↦ rw a (touch-IsKept c host e k f)
      ]

  -- The sections of any calls of Get, in any order; what is inserted for a host was made for it.
  pub data Reach (not_after : C → Option ℕ) : Cache C → Type 0 where
    starts : (capacity : ℕ) (c : Cache C) → new_cache capacity ≡ some c → Reach not_after c
    looks :
        (c : Cache C) (host : Bytes) (now : ℕ)
        → Reach not_after c
        → Reach not_after (look_up not_after c host now).0
    again :
        (c : Cache C) (host : Bytes) (now : ℕ)
        → Reach not_after c
        → Reach not_after (look_again not_after c host now).0
    inserts :
        (c : Cache C) (host : Bytes) (cert : C) (now : ℕ)
        → Made host cert
        → Reach not_after c
        → Reach not_after (insert c host cert now)

  new_cache-IsKept : (capacity : ℕ) (c : Cache C) → new_cache capacity ≡ some c → IsKept Made c
  unfolding new_cache count_if
  new_cache-IsKept capacity c e = elim (Bool-cases (ltb capacity 1)) [
    | inl a ↦ cc (rw a at e)
    | inr a ↦
        let fresh : Cache C = record { capacity = capacity; items = [] } in
        let made : some fresh ≡ some c = rw a at e in
        let same : fresh ≡ c = cc made in
        subst (IsKept Made) same (record {
          room = ground (arith, a);
          bound = omega arith;
          once = λ h. omega arith;
          own = tt;
        })
  ]

  pub Reach-IsKept : (not_after : C → Option ℕ) (c : Cache C) → Reach not_after c → IsKept Made c
  unfolding look_up look_again
  Reach-IsKept not_after _ (starts capacity c e) = new_cache-IsKept capacity c e
  Reach-IsKept not_after _ (looks c host now r) =
      look_up-IsKept not_after c host now (find_entry host c.items) (Reach-IsKept not_after c r)
        refl
  Reach-IsKept not_after _ (again c host now r) =
      look_again-IsKept not_after c host now (find_entry host c.items) (Reach-IsKept not_after c r)
        refl
  Reach-IsKept not_after _ (inserts c host cert now made r) =
      insert-IsKept c host cert now (Reach-IsKept not_after c r) made

-- In whatever order calls of Get look and insert, with nothing inserted for a host but what was made for
-- it: the cache never has more entries than its capacity nor two for a host, and a certificate that a look
-- finds was made for the host that is asked for and is not past its validity.
pub look_up_sound :
    {C : Type 0} (Made : Bytes → C → Type 0) (not_after : C → Option ℕ) (c : Cache C) (host : Bytes)
    (now : ℕ)
    → Reach Made not_after c
    → (length c.items ≤ c.capacity)
      × ((h : Bytes) → count_if (is_of h) c.items ≤ 1)
      × ((cert : C)
          → (look_up not_after c host now).1 ≡ some cert
          → Made host cert × (is_past (not_after cert) now ≡ false))
unfolding look_up look_up_at is_expired
look_up_sound Made not_after c host now r =
    let k = Reach-IsKept Made not_after c r in
    (
      k.bound,
      k.once,
      λ cert e. elim (Option-cases (find_entry host c.items)) [
        | inl f ↦ cc (rw f at e)
        | inr (x, f) ↦ elim (Bool-cases (is_past (not_after x.cert) now)) [
          | inl a ↦ cc (rw (f, a) at e)
          | inr a ↦
              let found : some x.cert ≡ some cert = rw (f, a) at e in
              let same : x.cert ≡ cert = cc found in
              subst (λ z. Made host z × (is_past (not_after z) now ≡ false)) same
                ((find_entry_own Made host c.items x k.own f).1, a)
        ]
      ],
    )

insert_items :
    {C : Type 0} (c : Cache C) (host : Bytes) (cert : C) (now n : ℕ)
    → c.capacity ≡ suc n
    → length c.items ≤ c.capacity
    → (insert c host cert now).items
      ≡ record { host = host; cert = cert; inserted_at = now } ∷ take n (unlink host c.items)
unfolding insert
insert_items c host cert now n full bound =
    let others = unlink host c.items in
    let fewer = unlink-length host c.items in
    elim (Bool-cases (leb c.capacity (length others))) [
      | inl a ↦
          let all : length others ≡ suc n =
            omega (arith, full, bound, fewer, leb→le c.capacity (length others) a) in
          rw a (
            ap (◌∷◌ (record { host = host; cert = cert; inserted_at = now }))
              (drop_last-take n others all))
      | inr a ↦
          let few : length others ≤ n = ground (arith, full, a) in
          rw a (
            ap (◌∷◌ (record { host = host; cert = cert; inserted_at = now }))
              (sym (take_all n others few)))
    ]

-- In every such cache insert puts the new entry in front of the others of the list in their order, of which
-- it keeps the ones used last, as many as the capacity leaves; so a look at once finds the new certificate,
-- if it is valid.
pub insert_used_first :
    {C : Type 0} (Made : Bytes → C → Type 0) (not_after : C → Option ℕ) (c : Cache C) (host : Bytes)
    (cert : C) (now later n : ℕ)
    → Reach Made not_after c
    → c.capacity ≡ suc n
    → ((insert c host cert now).items
        ≡ record { host = host; cert = cert; inserted_at = now } ∷ take n (unlink host c.items))
      × (is_past (not_after cert) later ≡ false
          → (look_up not_after (insert c host cert now) host later).1 ≡ some cert)
unfolding look_up look_up_at is_expired find_entry
insert_used_first Made not_after c host cert now later n r full =
    let items = insert_items c host cert now n full (Reach-IsKept Made not_after c r).bound in
    (items, λ valid. rw (items, (bytes_eq_iff host host).1 refl, valid) refl)
