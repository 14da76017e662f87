-- ===== src/Freshness/Parse/Sources/Stanzas.antt =====
-- What the end of a stanza adds to the rows of ParseSources.
use apt_cacher_ultra.Base.{
  ◌+◌, ◌^◌, ◌≤◌, ◌<◌, ◌≡◌, refl, inl, inr, Bool, true, false, not, ◌||◌, Option, none, some, List,
  [], ◌∷◌, ◌++◌, leb, if◌then◌else◌, arith, length, length-append, All, All-append, Bytes,
  Bool-cases, bytes_eq,
}
use apt_cacher_ultra.Freshness.Parse.Checks.{
  PathError, ParseError, valid_hex_sha256, validate_member_path,
}
use apt_cacher_ultra.Freshness.Parse.Sources.{
  SourceRef, max_source_stanzas, SourceChecksumEntry, Sources, SourceStep, goes, stops, then_step,
  step_at, is_bad_name, is_refused, skip_path, add_path, add_entry, add_entries, clear_stanza,
  cleared, count_stanza, flush_source,
}

abbrev pub IsGoodRef : SourceRef → Type 0
IsGoodRef r =
    (valid_hex_sha256 r.sha256 ≡ true) × (validate_member_path r.path ≡ none) × (r.size < 2 ^ 63)

abbrev pub IsSmall : SourceChecksumEntry → Type 0
IsSmall e = e.size < 2 ^ 63

abbrev pub IsSound : Sources → Type 0
IsSound s = All IsGoodRef s.out × (length s.out ≤ max_source_stanzas) × All IsSmall s.entries

-- The state that a step leaves, whether it goes on or stops.
abbrev pub left : SourceStep → Sources
left (goes s) = s
left (stops s e) = s

pub then_step-IsSound :
    (m : SourceStep) (f : Sources → SourceStep)
    → IsSound (left m)
    → ((s : Sources) → IsSound s → IsSound (left (f s)))
    → IsSound (left (then_step m f))
then_step-IsSound (goes s) f a h = h s a
then_step-IsSound (stops s e) f a h = a

pub step_at-IsSound :
    (f : ParseError → ParseError) (m : SourceStep) → IsSound (left m) → IsSound (left (step_at f m))
step_at-IsSound f (goes s) a = a
step_at-IsSound f (stops s e) a = a

cleared-IsSound : (m : SourceStep) → IsSound (left m) → IsSound (left (cleared m))
unfolding clear_stanza
cleared-IsSound (goes s) a = (a.0, a.1, tt)
cleared-IsSound (stops s e) a = (a.0, a.1, tt)

not_refused : (o : Option PathError) → is_refused o ≡ false → o ≡ none
unfolding is_refused
not_refused none e = refl
not_refused (some x) e = cc e

add_path-IsSound :
    (s : Sources) (dir_ok : Bool) (e : SourceChecksumEntry) (full : Bytes)
    → valid_hex_sha256 e.sha256 ≡ true
    → IsSmall e
    → IsSound s
    → IsSound (left (add_path s dir_ok e full))
unfolding add_path skip_path
add_path-IsSound s false e full h small a = a
add_path-IsSound s true e full h small a =
    elim (Bool-cases (is_refused (validate_member_path full))) [
      | inl r ↦ rw r a
      | inr r ↦ elim (Bool-cases (leb max_source_stanzas (length s.out))) [
        | inl b ↦ rw (r, b) a
        | inr b ↦
            let row : SourceRef = record {
              path = full;
              sha256 = e.sha256;
              size = e.size;
              package_name = s.package_name;
            } in
            rw (r, b)
              (
                All-append IsGoodRef s.out (row ∷ []) a.0
                    ((h, not_refused (validate_member_path full) r, small), tt),
                ground (arith, length-append s.out (row ∷ [])),
                a.2,
              )
      ]
    ]

add_entry-IsSound :
    (s : Sources) (dir_ok : Bool) (e : SourceChecksumEntry)
    → IsSmall e
    → IsSound s
    → IsSound (left (add_entry s dir_ok e))
unfolding add_entry
add_entry-IsSound s dir_ok e small a = elim (Bool-cases (valid_hex_sha256 e.sha256)) [
  | inr v ↦ rw v a
  | inl v ↦ elim (Bool-cases (is_bad_name e.filename)) [
    | inl b ↦ rw (v, b) a
    | inr b ↦ rw (v, b) (add_path-IsSound s dir_ok e (s.directory ++ (b'/' ∷ e.filename)) v small a)
  ]
]

add_entries-IsSound :
    (s : Sources) (dir_ok : Bool) (es : List SourceChecksumEntry)
    → All IsSmall es
    → IsSound s
    → IsSound (left (add_entries s dir_ok es))
unfolding add_entries
add_entries-IsSound s dir_ok [] small a = a
add_entries-IsSound s dir_ok (e ∷ es) small a =
    then_step-IsSound (add_entry s dir_ok e) (λ s'. add_entries s' dir_ok es)
      (add_entry-IsSound s dir_ok e small.0 a) (λ s' b. add_entries-IsSound s' dir_ok es small.1 b)

count_stanza-IsSound : (s : Sources) → IsSound s → IsSound (count_stanza s)
unfolding count_stanza
count_stanza-IsSound s a = counted s.stanza_open
  where
    counted :
        (b : Bool)
        → IsSound (
            if b
            then record s { stats = record (s.stats) { stanza_count = s.stats.stanza_count + 1 } }
            else s)
    counted true = a
    counted false = a

pub flush_source-IsSound : (s : Sources) → IsSound s → IsSound (left (flush_source s))
unfolding flush_source clear_stanza
flush_source-IsSound s0 a0 =
    let s = count_stanza s0 in
    let a = count_stanza-IsSound s0 a0 in
    elim (Bool-cases (bytes_eq s.package_name [] || bytes_eq s.directory [])) [
      | inl e ↦ rw e (a.0, a.1, tt)
      | inr e ↦
          let dir_ok = not (is_refused (validate_member_path s.directory)) in
          rw e (
            cleared-IsSound (add_entries s dir_ok s.entries)
              (add_entries-IsSound s dir_ok s.entries a.2 a))
    ]
