-- ===== src/Freshness/Run/Fair.antt =====
-- A host that is ready has its turn.
use apt_cacher_ultra.Base.{ℕ, suc, ◌≤◌, ◌≡◌, some, elem_at}
use apt_cacher_ultra.Freshness.Queues.{SchedItem, HostQueue, SchedQueues, Admit, pop, host_turn}

-- So many pops, one behind the other.
pub data Pops (admit : Admit) : SchedQueues → ℕ → SchedQueues → Type 0 where
  here : (q : SchedQueues) → Pops admit q 0 q
  next_pop :
      (q r s : SchedQueues) (x : SchedItem) (n : ℕ)
      → pop q admit ≡ some (x, r)
      → Pops admit r n s
      → Pops admit q (suc n) s

-- The turn of the host at p, behind at most so many pops that leave it as it is.
pub record IsServed (admit : Admit) (q : SchedQueues) (p : ℕ) (h : HostQueue) (bound : ℕ)
    : Type 0 where
  pub pops : ℕ
  pub soon : pops ≤ bound
  pub queues : SchedQueues
  pub popped : Pops admit q pops queues
  pub same_host : elem_at p queues.ring ≡ some h
  pub item : SchedItem
  pub left : SchedQueues
  pub now : pop queues admit ≡ some (item, left)
  pub turn : host_turn admit queues p (some h) ≡ some (item, left)
