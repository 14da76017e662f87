-- ===== src/Hostsem/Tests.antt =====
-- A run of the semaphore, and its theorems at it.
use apt_cacher_ultra.Base.{
  ◌≤◌, ◌≡◌, refl, none, some, Bytes, bytes_eq, codes, elem_at, put_at, count_if, ltb, if◌then◌else◌,
}
use apt_cacher_ultra.Hostsem.{
  Sem, new_sem, enter, enter_at, send, cancel, release, drop, move, move_at, move_phase, take_token,
  give_token, drop_ref, is_slot, host_stat, stat_at,
}
use apt_cacher_ultra.Hostsem.Kept.{is_active, is_holding}
use apt_cacher_ultra.Hostsem.Runs.{Reach, starts, enters, moves}
use apt_cacher_ultra.Hostsem.Limit.{on_host, in_flight-le-limit, host_stat_lem}

abbrev host : Bytes
host = codes "deb.debian.org"

-- Two calls for a host with one slot: the second one waits.
abbrev crowded : Sem
crowded = move send (move send (enter (enter (new_sem 1) host) host) 0) 1

crowded-Reach : Reach 1 crowded
crowded-Reach = moves send (move send (enter (enter (new_sem 1) host) host) 0) 1 (
    moves send (enter (enter (new_sem 1) host) host) 0
      (enters (enter (new_sem 1) host) host (enters (new_sem 1) host starts)))

crowded_stat : host_stat crowded host ≡ some (record { inflight = 1; capacity = 1 })
unfolding host_stat stat_at move move_at move_phase take_token enter enter_at elem_at put_at
    bytes_eq
crowded_stat = refl

-- The second call gives up, and the first gives its token back: the map is empty.
left_stat :
    host_stat (move drop (move release (move drop (move cancel crowded 1) 1) 0) 0) host ≡ none
unfolding host_stat stat_at move move_at move_phase take_token give_token drop_ref is_slot enter
    enter_at elem_at put_at bytes_eq
left_stat = refl

in_flight-le-limit_example : count_if (on_host is_holding host) crowded.callers ≤ 1
in_flight-le-limit_example = in_flight-le-limit 1 crowded crowded-Reach host

host_stat_lem_example : host_stat crowded host ≡ (
    if ltb 0 (count_if (on_host is_active host) crowded.callers)
    then some
        (record { inflight = count_if (on_host is_holding host) crowded.callers; capacity = 1 })
    else none)
host_stat_lem_example = host_stat_lem 1 crowded crowded-Reach host
