-- ===== src/Freshness/Parse/Sources/Rows.antt =====
-- What ParseSources returns: rows below their directories, with good hashes.
use apt_cacher_ultra.Base.{
  ℕ, zero, suc, ◌+◌, ◌≤◌, ◌≡◌, refl, inl, inr, Bool, true, false, ◌||◌, Option, none, some, List,
  [], ◌∷◌, leb, ◌==◌, if◌then◌else◌, arith, length, All, All-append, Bytes, codes, Bool-cases,
  subst, parse_int, parse_int_bound, ℤ, pos, negsuc, drop_cr, raw_lines, index_byte, fields,
  trim_space, take, drop, lowers_to,
}
use apt_cacher_ultra.Freshness.Parse.Checks.{ok, scan_buf_cap, in_line, in_tail}
use apt_cacher_ultra.Freshness.Parse.Sources.{
  SourceRef, max_source_stanzas, SourceChecksumEntry, Sources, no_sources, SourceStep, goes, stops,
  then_step, step_at, checksum_fields, parse_sources_checksum_line, flush_source, set_source_field,
  read_source_header, keep_checksum, read_source_line, read_source_lines, finish_sources,
  sources_result, parse_sources,
}
use apt_cacher_ultra.Freshness.Parse.Sources.Stanzas.{
  IsGoodRef, IsSmall, IsSound, left, then_step-IsSound, step_at-IsSound, flush_source-IsSound,
}

checksum_fields-IsSmall :
    (fs : List Bytes) (e : SourceChecksumEntry) → checksum_fields fs ≡ some e → IsSmall e
unfolding checksum_fields
checksum_fields-IsSmall [] e q = cc q
checksum_fields-IsSmall (h ∷ []) e q = cc q
checksum_fields-IsSmall (h ∷ n ∷ []) e q = cc q
checksum_fields-IsSmall (h ∷ n ∷ f ∷ g ∷ fs) e q = cc q
checksum_fields-IsSmall (h ∷ n ∷ f ∷ []) e q = go (parse_int n) refl
  where
    go : (o : Option ℤ) → parse_int n ≡ o → IsSmall e
    go none p = cc (rw (p, checksum_fields) at q)
    go (some (negsuc k)) p = cc (rw (p, checksum_fields) at q)
    go (some (pos k)) p =
        let same = rw (p, checksum_fields) at q in
        let size_same : e.size ≡ k = cc same in omega (arith, parse_int_bound n k p, size_same)

keep_checksum-IsSound :
    (s : Sources) (o : Option SourceChecksumEntry)
    → ((e : SourceChecksumEntry) → o ≡ some e → IsSmall e)
    → IsSound s
    → IsSound (keep_checksum s o)
unfolding keep_checksum
keep_checksum-IsSound s none h a = a
keep_checksum-IsSound s (some e) h a =
    (a.0, a.1, All-append IsSmall s.entries (e ∷ []) a.2 (h e refl, tt))

set_source_field-IsSound :
    (s : Sources) (field value : Bytes) → IsSound s → IsSound (set_source_field s field value)
unfolding set_source_field
set_source_field-IsSound s field value a = elim (Bool-cases (lowers_to field (codes "package"))) [
  | inl x ↦ rw x a
  | inr x ↦ elim (Bool-cases (lowers_to field (codes "directory"))) [
    | inl y ↦ rw (x, y) a
    | inr y ↦ rw (x, y) a
  ]
]

read_source_header-IsSound :
    (s : Sources) (line : Bytes) (o : Option ℕ)
    → IsSound s
    → IsSound (left (read_source_header s line o))
unfolding read_source_header
read_source_header-IsSound s line none a = a
read_source_header-IsSound s line (some zero) a = a
read_source_header-IsSound s line (some (suc i)) a =
    set_source_field-IsSound (record s { stanza_open = true }) (trim_space (take (suc i) line))
      (trim_space (drop (suc i + 1) line)) a

read_source_line-IsSound :
    (n : ℕ) (s : Sources) (line : Bytes) → IsSound s → IsSound (left (read_source_line n s line))
unfolding read_source_line parse_sources_checksum_line
read_source_line-IsSound n s [] a =
    step_at-IsSound (in_line n) (flush_source s) (flush_source-IsSound s a)
read_source_line-IsSound n s (c ∷ line) a = elim (Bool-cases (c == b' ' || c == 9)) [
  | inl x ↦ rw x (in_block s.in_sha256_block)
  | inr x ↦ rw x (
      step_at-IsSound (in_line n) (read_source_header s (c ∷ line) (index_byte b':' (c ∷ line)))
        (read_source_header-IsSound s (c ∷ line) (index_byte b':' (c ∷ line)) a))
]
  where
    in_block :
        (b : Bool)
        → IsSound (if b then keep_checksum s (checksum_fields (fields (c ∷ line))) else s)
    in_block true =
        keep_checksum-IsSound s (checksum_fields (fields (c ∷ line)))
          (λ e q. checksum_fields-IsSmall (fields (c ∷ line)) e q) a
    in_block false = a

read_source_lines-IsSound :
    (n : ℕ) (s : Sources) (ls : List Bytes) → IsSound s → IsSound (left (read_source_lines n s ls))
unfolding read_source_lines
read_source_lines-IsSound n s [] a = a
read_source_lines-IsSound n s (l ∷ ls) a = elim (Bool-cases (leb scan_buf_cap (length l))) [
  | inl t ↦ rw t a
  | inr t ↦ rw t (
      then_step-IsSound (read_source_line n s (drop_cr l)) (λ s'. read_source_lines (n + 1) s' ls)
        (read_source_line-IsSound n s (drop_cr l) a)
        (λ s' b. read_source_lines-IsSound (n + 1) s' ls b))
]

result_out :
    (text : Bytes) (m : SourceStep) (refs : List SourceRef)
    → (sources_result text m).1 ≡ ok refs
    → (left m).out ≡ refs
unfolding sources_result finish_sources
result_out text (goes s) refs e = ground arith
result_out text (stops s x) refs e = cc e

-- Every row that ParseSources returns has a well-formed hash, a path that validateMemberPath takes and
-- a size that fits an int64, and there are at most a million of them.
pub parse_sources_sound :
    (text : Bytes) (refs : List SourceRef)
    → (parse_sources text).1 ≡ ok refs
    → All IsGoodRef refs × (length refs ≤ max_source_stanzas)
unfolding parse_sources
parse_sources_sound text refs e =
    let m =
      then_step (read_source_lines 1 no_sources (raw_lines text))
        (λ s. step_at in_tail (flush_source s)) in
    let sound : IsSound (left m) =
      then_step-IsSound (read_source_lines 1 no_sources (raw_lines text))
        (λ s. step_at in_tail (flush_source s))
        (read_source_lines-IsSound 1 no_sources (raw_lines text) (tt, omega arith, tt))
        (λ s a. step_at-IsSound in_tail (flush_source s) (flush_source-IsSound s a)) in
    let same = result_out text m refs e in
    (
      subst (All IsGoodRef) same sound.0,
      subst (λ (x : List SourceRef). length x ≤ max_source_stanzas) same sound.1,
    )
