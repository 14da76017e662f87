-- ===== src/Freshness/Admission.antt =====
-- internal/freshness/admission.go: the slot pool and its leases. Each function is one critical
-- section, with the wake that follows it. A lease is its place in the list of all leases, and
-- `none` is a nil lease. The count of slots is a natural number, since the configuration refuses a
-- negative limit and a slot is only given back by the lease that has it (Admission/Books).
pub mod Slots
pub mod Books
mod Tests
use apt_cacher_ultra.Base.{
  ℕ, zero, suc, ◌+◌, ◌-◌, ◌%◌, ◌^◌, Bool, true, false, not, ◌&&◌, ◌||◌, Option, none, some, List,
  [], ◌∷◌, ◌++◌, length, ltb, leb, ◌==◌, max, if◌then◌else◌, Bytes, bytes_eq,
}

pub record Lease : Type 0 where
  pub host : Bytes
  pub host_held : Bool
  pub global_held : Bool

-- `freed` says that the wake channel, of capacity 1, is full.
pub record Admission : Type 0 where
  pub global : ℕ
  pub in_use : ℕ
  pub hosts : List Bytes
  pub freed : Bool
  pub releases : ℕ
  pub leases : List Lease

abbrev pub admission_unlimited : ℕ
admission_unlimited = 2 ^ 30

abbrev pub new_admission : ℕ → Admission
new_admission global = record {
  global = global;
  in_use = 0;
  hosts = [];
  freed = false;
  releases = 0;
  leases = [];
}

-- `a.hosts[host]`.
unfoldable pub has : Bytes → List Bytes → Bool
has host [] = false
has host (h ∷ hs) = bytes_eq h host || has host hs

-- `a.hosts[host] = true`.
unfoldable pub add : Bytes → List Bytes → List Bytes
add host hs = if has host hs then hs else host ∷ hs

-- `delete(a.hosts, host)`.
unfoldable pub drop_host : Bytes → List Bytes → List Bytes
drop_host host [] = []
drop_host host (h ∷ hs) = if bytes_eq h host then drop_host host hs else h ∷ drop_host host hs

-- Why tryAcquire refuses.
unfoldable pub refuses : Admission → Bytes → Bool → Bool
refuses a host signed_current =
    has host a.hosts
    || (ltb 0 a.global
        && (a.global - a.in_use == 0
            || (leb 2 a.global && a.global - a.in_use == 1 && not signed_current)))

unfoldable pub try_acquire : Admission → Bytes → Bool → Admission × Option ℕ
try_acquire a host signed_current = if refuses a host signed_current then (a, none) else (
  record a {
    in_use = a.in_use + 1;
    hosts = add host a.hosts;
    leases = a.leases ++ (record { host = host; host_held = true; global_held = true } ∷ []);
  },
  some (length a.leases),
)

unfoldable pub free_for : Admission → Bytes → Bool → ℕ
free_for a host signed_current =
    if has host a.hosts
    then 0
    else if a.global == 0
    then admission_unlimited
    else let free = a.global - a.in_use in
      max (if leb 2 a.global && not signed_current then free - 1 else free) 0

unfoldable pub wake : Admission → Admission
wake a = record a { freed = true }

unfoldable pub lease_at : ℕ → List Lease → Option Lease
lease_at i [] = none
lease_at zero (l ∷ ls) = some l
lease_at (suc i) (l ∷ ls) = lease_at i ls

unfoldable pub put_lease : ℕ → Lease → List Lease → List Lease
put_lease i l [] = []
put_lease zero l (k ∷ ls) = l ∷ ls
put_lease (suc i) l (k ∷ ls) = k ∷ put_lease i l ls

-- releaseHost, behind the test for nil.
unfoldable pub free_host : Admission → ℕ → Lease → Admission
free_host a i l =
    if l.host_held
    then wake (record a {
      hosts = drop_host l.host a.hosts;
      releases = (a.releases + 1) % 2 ^ 64;
      leases = put_lease i (record l { host_held = false }) a.leases;
    })
    else a

unfoldable pub release_host : Admission → Option ℕ → Admission
release_host a none = a
release_host a (some i) = elim (lease_at i a.leases) [ none ↦ a | some l ↦ free_host a i l ]

-- release, behind the test for nil.
unfoldable pub free_all : Admission → ℕ → Lease → Admission
free_all a i l =
    if l.host_held || l.global_held
    then wake (record a {
      hosts = if l.host_held then drop_host l.host a.hosts else a.hosts;
      in_use = if l.global_held then a.in_use - 1 else a.in_use;
      releases = (a.releases + 1) % 2 ^ 64;
      leases = put_lease i (record l { host_held = false; global_held = false }) a.leases;
    })
    else a

unfoldable pub release : Admission → Option ℕ → Admission
release a none = a
release a (some i) = elim (lease_at i a.leases) [ none ↦ a | some l ↦ free_all a i l ]

unfoldable pub generation : Admission → ℕ
generation a = a.releases

-- The slots and the hosts in use.
unfoldable pub usage : Admission → ℕ × ℕ
usage a = (a.in_use, length a.hosts)
