-- ===== src/Proxy/LeafCache/Tests.antt =====
-- A cache of two certificates. A certificate is the length of its host's name, valid until 1000.
use apt_cacher_ultra.Base.{
  ℕ, ◌≤◌, ◌≡◌, refl, false, Option, some, [], ◌∷◌, length, take, Bytes, codes, count_if,
}
use apt_cacher_ultra.Proxy.LeafCache.{
  Cache, new_cache, find_entry, unlink, is_past, look_up, look_up_at, insert, get, miss, look_again,
  look_again_at, generate, generated,
}
use apt_cacher_ultra.Proxy.LeafCache.Kept.{is_of}
use apt_cacher_ultra.Proxy.LeafCache.Runs.{Reach, starts, inserts, look_up_sound, insert_used_first}

abbrev IsLength : Bytes → ℕ → Type 0
IsLength host cert = cert ≡ length host

abbrev until_1000 : ℕ → Option ℕ
until_1000 cert = some 1000

abbrev empty_cache : Cache ℕ
empty_cache = record { capacity = 2; items = [] }

two_places : new_cache {C = ℕ} 2 ≡ some empty_cache
unfolding new_cache
two_places = refl

abbrev one_inside : Cache ℕ
one_inside = insert empty_cache (codes "a.org") 5 100

one_inside-Reach : Reach IsLength until_1000 one_inside
one_inside-Reach = inserts empty_cache (codes "a.org") 5 100 refl (starts 2 empty_cache two_places)

look_up_sound_example :
    (length one_inside.items ≤ one_inside.capacity)
    × ((h : Bytes) → count_if (is_of h) one_inside.items ≤ 1)
    × ((cert : ℕ)
        → (look_up until_1000 one_inside (codes "a.org") 200).1 ≡ some cert
        → IsLength (codes "a.org") cert × (is_past (until_1000 cert) 200 ≡ false))
look_up_sound_example =
    look_up_sound IsLength until_1000 one_inside (codes "a.org") 200 one_inside-Reach

insert_used_first_example :
    ((insert one_inside (codes "b.org") 5 200).items
      ≡ record { host = codes "b.org"; cert = 5; inserted_at = 200 }
        ∷ take 1 (unlink (codes "b.org") one_inside.items))
    × (is_past (until_1000 5) 300 ≡ false
        → (look_up until_1000 (insert one_inside (codes "b.org") 5 200) (codes "b.org") 300).1
          ≡ some 5)
unfolding insert
insert_used_first_example =
    insert_used_first IsLength until_1000 one_inside (codes "b.org") 5 200 300 1 one_inside-Reach
      refl

-- A miss generates and inserts.
got :
    (get until_1000 (λ host. some (length host)) empty_cache (codes "a.org") 100)
    ≡ (one_inside, some 5)
unfolding get miss look_up look_up_at find_entry look_again look_again_at generate generated
got = refl
