-- ===== src/Freshness/Queues/State.antt =====
-- The suites, the items and the queues of a host, and the sets of keys.
use apt_cacher_ultra.Base.{
  ℕ, suc, Bool, true, false, ◌&&◌, Option, none, some, List, [], ◌∷◌, ◌++◌, ltb, if◌then◌else◌,
  Bytes, bytes_eq, codes,
}
use apt_cacher_ultra.Cache.Newest.{is_in}

pub record SuiteRef : Type 0 where
  pub canonical_scheme : Bytes
  pub canonical_host : Bytes
  pub suite_path : Bytes

-- The fields of cache.SuiteFreshness that the scheduler reads. A stamp is in seconds of Unix time.
pub record SuiteFreshness : Type 0 where
  pub suite : SuiteRef
  pub last_check_at : Option ℕ
  pub last_success_at : Option ℕ
  pub in_release_change_seen_at : Option ℕ
  pub current_snapshot_id : Option ℕ
  pub last_requested_at : Option ℕ
  pub check_fail_count : ℕ
  pub adoption_fail_reason : Option Bytes
  pub adoption_fail_count : ℕ
  pub adoption_next_retry_at : Option ℕ

unfoldable pub suite_key : Bytes → Bytes → Bytes → Bytes
suite_key scheme host suite_path = scheme ++ (codes "|" ++ (host ++ (codes "|" ++ suite_path)))

unfoldable pub ref_key : SuiteRef → Bytes
ref_key r = suite_key r.canonical_scheme r.canonical_host r.suite_path

pub data SchedClass : Type 0 where
  class_healthy class_never_checked class_failing : SchedClass

unfoldable pub class_of : SuiteFreshness → SchedClass
class_of s =
    if ltb 0 s.check_fail_count
    then class_failing
    else elim s.last_check_at [ none ↦ class_never_checked | some t ↦ class_healthy ]

pub record SchedItem : Type 0 where
  pub ref : SuiteRef
  pub key : Bytes
  pub waiting : Bool
  pub signed : Bool
  pub held : Bool
  pub pending_change : Bool
  pub wait_seq : ℕ
  pub gen : ℕ

-- The array classes is a field for each class.
pub record HostQueue : Type 0 where
  pub host : Bytes
  pub healthy : List SchedItem
  pub never_checked : List SchedItem
  pub failing : List SchedItem
  pub waiting : List SchedItem
  pub in_flight : Bool

unfoldable pub is_nil : List SchedItem → Bool
is_nil [] = true
is_nil (x ∷ xs) = false

unfoldable pub is_idle : HostQueue → Bool
is_idle h = is_nil h.waiting && (is_nil h.healthy && (is_nil h.never_checked && is_nil h.failing))

pub record SchedQueues : Type 0 where
  pub ring : List HostQueue
  pub next : ℕ
  pub queued : List Bytes
  pub pending : List Bytes
  pub wait_seq : ℕ

abbrev pub new_sched_queues : SchedQueues
new_sched_queues = record { ring = []; next = 0; queued = []; pending = []; wait_seq = 0 }

-- What Go does with a map used as a set.
unfoldable pub insert_key : Bytes → List Bytes → List Bytes
insert_key k ks = if is_in k ks then ks else k ∷ ks

unfoldable pub delete_key : Bytes → List Bytes → List Bytes
delete_key k [] = []
delete_key k (x ∷ ks) = if bytes_eq x k then delete_key k ks else x ∷ delete_key k ks

-- q.hosts[host], with its place.
unfoldable pub find_from : ℕ → Bytes → List HostQueue → Option (ℕ × HostQueue)
find_from i host [] = none
find_from i host (h ∷ hs) =
    let rest = find_from (suc i) host hs in if bytes_eq h.host host then some (i, h) else rest
