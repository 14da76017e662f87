-- ===== src/Freshness/Admission/Slots.antt =====
-- What tryAcquire grants, and what giving a lease back twice does.
use apt_cacher_ultra.Base.{
  ℕ, zero, suc, ◌≤◌, ◌<◌, ◌≡◌, refl, sym, ap, ◌∙◌, inl, inr, Bool, true, false, ◌||◌, Option, none,
  some, List, [], ◌∷◌, ltb, arith, Bool-cases, Option-cases, Bytes,
}
use apt_cacher_ultra.Freshness.Admission.{
  Lease, Admission, refuses, try_acquire, free_for, wake, lease_at, put_lease, free_host,
  release_host, free_all, release,
}

unfoldable pub is_some : Option ℕ → Bool
is_some none = false
is_some (some n) = true

-- freeFor mirrors tryAcquire: it reports a free slot just when tryAcquire would give a lease.
pub free_for-try_acquire :
    (a : Admission) (host : Bytes) (signed_current : Bool)
    → ltb 0 (free_for a host signed_current) ≡ is_some (try_acquire a host signed_current).1
unfolding free_for try_acquire refuses is_some
free_for-try_acquire a host signed_current = ground arith

-- A lease for a suite without a signed current snapshot leaves a slot free in a pool of two or more.
pub try_acquire_reserve :
    (a : Admission) (host : Bytes)
    → 2 ≤ a.global
    → refuses a host false ≡ false
    → (try_acquire a host false).0.in_use < a.global
unfolding try_acquire refuses
try_acquire_reserve a host g e = rw e (ground arith)

pub release_host-at :
    (a : Admission) (i : ℕ) (l : Lease)
    → lease_at i a.leases ≡ some l
    → release_host a (some i) ≡ free_host a i l
unfolding release_host
release_host-at a i l e = rw (release_host, e) refl

pub release-at :
    (a : Admission) (i : ℕ) (l : Lease)
    → lease_at i a.leases ≡ some l
    → release a (some i) ≡ free_all a i l
unfolding release
release-at a i l e = rw (release, e) refl

pub release_host-nowhere :
    (a : Admission) (i : ℕ) → lease_at i a.leases ≡ none → release_host a (some i) ≡ a
unfolding release_host
release_host-nowhere a i e = rw (release_host, e) refl

pub release-nowhere : (a : Admission) (i : ℕ) → lease_at i a.leases ≡ none → release a (some i) ≡ a
unfolding release
release-nowhere a i e = rw (release, e) refl

put_lease-at :
    (i : ℕ) (l : Lease) (ls : List Lease) (old : Lease)
    → lease_at i ls ≡ some old
    → lease_at i (put_lease i l ls) ≡ some l
unfolding put_lease lease_at
put_lease-at i l [] old e = cc
put_lease-at zero l (k ∷ ls) old e = refl
put_lease-at (suc i) l (k ∷ ls) old e = put_lease-at i l ls old e

free_all_twice :
    (a : Admission) (i : ℕ) (l : Lease)
    → lease_at i a.leases ≡ some l
    → release (free_all a i l) (some i) ≡ free_all a i l
unfolding free_all wake
free_all_twice a i l e = elim (Bool-cases (l.host_held || l.global_held)) [
  | inl h ↦
      let l' = record l { host_held = false; global_held = false } in
      release-at (free_all a i l) i l' (rw h (put_lease-at i l' a.leases l e))
  | inr h ↦ rw h (release-at a i l e ∙ rw h refl)
]

-- Giving a lease back is idempotent.
pub release_twice :
    (a : Admission) (lease : Option ℕ) → release (release a lease) lease ≡ release a lease
unfolding release
release_twice a none = refl
release_twice a (some i) = elim (Option-cases (lease_at i a.leases)) [
  | inl e ↦ ap (λ b. release b (some i)) (release-nowhere a i e)
  | inr (l, e) ↦
      ap (λ b. release b (some i)) (release-at a i l e)
      ∙ (free_all_twice a i l e ∙ sym (release-at a i l e))
]
