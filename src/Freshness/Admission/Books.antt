-- ===== src/Freshness/Admission/Books.antt =====
-- The pool's books: what the slots and the hosts in use have to do with the leases.
use apt_cacher_ultra.Base.{
  ℕ, zero, suc, ◌+◌, ◌≤◌, ◌≡◌, refl, sym, ap, ◌∙◌, ◌⊎◌, inl, inr, Bool, true, false, not, ◌&&◌,
  ◌||◌, Option, none, some, List, [], ◌∷◌, ◌++◌, if◌then◌else◌, arith, Bool-cases, Option-cases,
  subst, Bytes, bytes_eq, bytes_eq_iff,
}
use apt_cacher_ultra.Freshness.Admission.{
  Lease, Admission, new_admission, has, add, drop_host, refuses, try_acquire, wake, lease_at,
  put_lease, free_host, release_host, free_all, release,
}
use apt_cacher_ultra.Freshness.Admission.Slots.{
  release_host-at, release-at, release_host-nowhere, release-nowhere,
}

-- How many leases pass a test.
unfoldable pub count : (Lease → Bool) → List Lease → ℕ
count p [] = 0
count p (l ∷ ls) = (if p l then 1 else 0) + count p ls

count-append :
    (p : Lease → Bool) (ls : List Lease) (l : Lease)
    → count p (ls ++ (l ∷ [])) ≡ count p ls + (if p l then 1 else 0)
unfolding count
count-append p [] l = ground arith
count-append p (k ∷ ls) l = ground (arith, count-append p ls l)

count-put :
    (p : Lease → Bool) (i : ℕ) (ls : List Lease) (old l : Lease)
    → lease_at i ls ≡ some old
    → count p (put_lease i l ls) + (if p old then 1 else 0) ≡ count p ls + (if p l then 1 else 0)
unfolding count put_lease lease_at
count-put p i [] old l e = cc
count-put p zero (k ∷ ls) old l e = ground arith
count-put p (suc i) (k ∷ ls) old l e = ground (arith, count-put p i ls old l e)

abbrev pub global_held : Lease → Bool
global_held l = l.global_held

abbrev pub holds : Bytes → Lease → Bool
holds host l = l.host_held && bytes_eq l.host host

has-drop_host :
    (k h : Bytes) (hs : List Bytes) → has h (drop_host k hs) ≡ (has h hs && not (bytes_eq k h))
unfolding has drop_host
has-drop_host k h [] = refl
has-drop_host k h (x ∷ hs) =
    ground (arith, has-drop_host k h hs, bytes_eq_iff x k, bytes_eq_iff x h, bytes_eq_iff k h)

pub has-add : (k h : Bytes) (hs : List Bytes) → has h (add k hs) ≡ (bytes_eq k h || has h hs)
unfolding has add
has-add k h hs = elim (Bool-cases (bytes_eq k h)) [
  | inl e ↦ rw ((bytes_eq_iff k h).0 e) (ground (arith, bytes_eq_iff h h))
  | inr e ↦ ground arith
]

-- The books of the pool: the slots in use are the leases that hold one, within the limit if there is
-- one; and a host is in use just when one lease holds it, and never more than one does.
abbrev pub Books : Admission → Type 0
Books a =
    (a.in_use ≡ count global_held a.leases)
    × ((a.global ≡ 0) ⊎ (a.in_use ≤ a.global))
    × ((host : Bytes) → count (holds host) a.leases ≡ (if has host a.hosts then 1 else 0))

admitted_host :
    (k h : Bytes) (hs : List Bytes) (n : ℕ)
    → has k hs ≡ false
    → n ≡ (if has h hs then 1 else 0)
    → n + (if bytes_eq k h then 1 else 0) ≡ (if bytes_eq k h || has h hs then 1 else 0)
admitted_host k h hs n absent e = elim (Bool-cases (bytes_eq k h)) [
  | inl same ↦
      let none_yet : has h hs ≡ false =
        subst (λ x. has x hs ≡ false) ((bytes_eq_iff k h).0 same) absent in
      rw (same, e, none_yet) refl
  | inr other ↦ rw (other, e) (ground arith)
]

accepts_parts :
    (a : Admission) (host : Bytes) (signed_current : Bool)
    → refuses a host signed_current ≡ false
    → (has host a.hosts ≡ false) × ((a.global ≡ 0) ⊎ (a.in_use + 1 ≤ a.global))
unfolding refuses
accepts_parts a host signed_current e = ground arith

try_acquire-Books :
    (a : Admission) (host : Bytes) (signed_current : Bool)
    → Books a
    → Books (try_acquire a host signed_current).0
unfolding try_acquire
try_acquire-Books a host signed_current (u, l, h) =
    elim (Bool-cases (refuses a host signed_current)) [
      | inl e ↦ rw e (u, l, h)
      | inr e ↦
          let (absent, room) = accepts_parts a host signed_current e in
          let lease : Lease = record { host = host; host_held = true; global_held = true } in
          rw e (
            ap (λ n. n + 1) u ∙ sym (count-append global_held a.leases lease),
            room,
            λ k.
                count-append (holds k) a.leases lease
                ∙ (admitted_host host k a.hosts (count (holds k) a.leases) absent (h k)
                    ∙ ap (λ b. if b then 1 else 0) (sym (has-add host k a.hosts))),
          )
    ]

-- A lease that gives its host back takes it out of the map.
freed_host :
    (k h : Bytes) (hs : List Bytes) (n m : ℕ)
    → n + (if bytes_eq k h then 1 else 0) ≡ m + 0
    → m ≡ (if has h hs then 1 else 0)
    → n ≡ (if has h (drop_host k hs) then 1 else 0)
freed_host k h hs n m e f = rw (has-drop_host k h hs) (ground arith)

free_host-Books :
    (a : Admission) (i : ℕ) (l : Lease)
    → lease_at i a.leases ≡ some l
    → Books a
    → Books (free_host a i l)
unfolding free_host wake
free_host-Books a i l found (u, limit, h) = elim (Bool-cases l.host_held) [
  | inr e ↦ rw e (u, limit, h)
  | inl e ↦
      let l' = record l { host_held = false } in
      rw e (
        ground (arith, count-put global_held i a.leases l l' found),
        limit,
        λ k.
            freed_host l.host k a.hosts (count (holds k) (put_lease i l' a.leases))
              (count (holds k) a.leases) (ground (arith, count-put (holds k) i a.leases l l' found))
              (h k),
      )
]

free_all-Books :
    (a : Admission) (i : ℕ) (l : Lease)
    → lease_at i a.leases ≡ some l
    → Books a
    → Books (free_all a i l)
unfolding free_all wake
free_all-Books a i l found (u, limit, h) = elim (Bool-cases (l.host_held || l.global_held)) [
  | inr e ↦ rw e (u, limit, h)
  | inl e ↦
      let l' = record l { host_held = false; global_held = false } in
      let counted = count-put global_held i a.leases l l' found in
      rw e (
        ground (arith, counted),
        ground arith,
        λ k. elim (Bool-cases l.host_held) [
          | inl held ↦ rw held (
              freed_host l.host k a.hosts (count (holds k) (put_lease i l' a.leases))
                (count (holds k) a.leases)
                (ground (arith, count-put (holds k) i a.leases l l' found)) (h k))
          | inr gone ↦ rw gone (ground (arith, count-put (holds k) i a.leases l l' found, h k))
        ],
      )
]

release_host-Books : (a : Admission) (lease : Option ℕ) → Books a → Books (release_host a lease)
unfolding release_host
release_host-Books a none b = b
release_host-Books a (some i) b = elim (Option-cases (lease_at i a.leases)) [
  | inl e ↦ subst Books (sym (release_host-nowhere a i e)) b
  | inr (l, e) ↦ subst Books (sym (release_host-at a i l e)) (free_host-Books a i l e b)
]

release-Books : (a : Admission) (lease : Option ℕ) → Books a → Books (release a lease)
unfolding release
release-Books a none b = b
release-Books a (some i) b = elim (Option-cases (lease_at i a.leases)) [
  | inl e ↦ subst Books (sym (release-nowhere a i e)) b
  | inr (l, e) ↦ subst Books (sym (release-at a i l e)) (free_all-Books a i l e b)
]

-- What a pool with a limit goes through: leases are taken and given back in any order, and a
-- lease may be given back again.
pub data Reach (global : ℕ) : Admission → Type 0 where
  starts : Reach global (new_admission global)
  acquires :
      (a : Admission) (host : Bytes) (signed_current : Bool)
      → Reach global a
      → Reach global (try_acquire a host signed_current).0
  frees_host :
      (a : Admission) (lease : Option ℕ) → Reach global a → Reach global (release_host a lease)
  frees : (a : Admission) (lease : Option ℕ) → Reach global a → Reach global (release a lease)

-- In every pool that calls of tryAcquire, releaseHost and release lead to, the books are right: the
-- slots in use are as many as the leases that hold one, within the limit if there is one, and a
-- host is in use just when one lease holds it, and never more than one does.
pub Reach-Books : (global : ℕ) (a : Admission) → Reach global a → Books a
unfolding count has
Reach-Books global _ starts = (refl, inr (omega arith), λ k. refl)
Reach-Books global _ (acquires a host s r) = try_acquire-Books a host s (Reach-Books global a r)
Reach-Books global _ (frees_host a lease r) = release_host-Books a lease (Reach-Books global a r)
Reach-Books global _ (frees a lease r) = release-Books a lease (Reach-Books global a r)
