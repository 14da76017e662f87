-- ===== src/Aptpath/SniffLaws.antt =====
-- The sniffs against line-by-line descriptions, and the classification of a suite's files.
use apt_cacher_ultra.Base.{
  ℕ, zero, suc, ◌≤◌, ◌<◌, ◌≡◌, refl, ap, ◌≢◌, inl, inr, Bool, true, false, not, ◌&&◌, ◌||◌, Option,
  none, some, List, [], ◌∷◌, ◌++◌, ltb, ◌==◌, if◌then◌else◌, arith, length, take, drop, All, all,
  Bytes, codes, bytes_eq, bytes_eq_iff, index_byte, split, grow, trim_right, length-drop,
  has_prefix, trim_left_set, Bool-cases, Option-cases, cut_prefix,
}
use native.Mathlib.Numerals.{add-one}
use apt_cacher_ultra.Aptpath.Suite.{
  stem_names, clean_bytes, is_flat_member, is_bad_segment, suite_path, slash, has_dists_segment,
  is_flat_suite_path, flat_index_names, run_grammar,
}
use apt_cacher_ultra.Aptpath.Canonical.{suite_path_members, suite_path-IsCanonical, IsMember}
use apt_cacher_ultra.Aptpath.Sniff.{
  armor_sig_begin, sniff_release_gpg, sig_packet_body_offset, is_hash_header, release_loop,
  sniff_release, release_sniff_bytes, file_flat_index, max_suite_path_bytes, name_file,
  classify_suite_file, flat_index_ext, known_ext, flat_index_magic,
}

pub any_header : List Bytes → Bool
any_header [] = false
any_header (l ∷ ls) = is_hash_header l || any_header ls

-- The text up to a byte is the first of the segments, and the rest splits into the others.
split-index_byte :
    (sep : ℕ) (s : Bytes) (i : ℕ)
    → index_byte sep s ≡ some i
    → split sep s ≡ take i s ∷ split sep (drop (suc i) s)
unfolding split grow index_byte
split-index_byte sep [] i e = cc
split-index_byte sep (x ∷ xs) i e = elim (Bool-cases (x == sep)) [
  | inl h ↦ let z : 0 ≡ i = cc (rw h at e) in rw (h, ← z) refl
  | inr h ↦ elim (Option-cases (index_byte sep xs)) [
    | inl o ↦ cc (rw (h, o) at e)
    | inr (j, o) ↦
        let z : suc j ≡ i = cc (rw (h, o) at e) in rw (h, ← z, split-index_byte sep xs j o) refl
  ]
]

split-none : (sep : ℕ) (s : Bytes) → index_byte sep s ≡ none → split sep s ≡ s ∷ []
unfolding split grow index_byte
split-none sep [] e = refl
split-none sep (x ∷ xs) e = elim (Bool-cases (x == sep)) [
  | inl h ↦ cc (rw h at e)
  | inr h ↦ elim (Option-cases (index_byte sep xs)) [
    | inl o ↦ rw (h, split-none sep xs o) refl
    | inr (j, o) ↦ cc (rw (h, o) at e)
  ]
]

release_loop-nil : (fuel : ℕ) → 0 < fuel → release_loop fuel [] ≡ some false
unfolding release_loop
release_loop-nil zero h = absurd (omega arith)
release_loop-nil (suc fuel) h = refl

release_loop_lines :
    (fuel : ℕ) (s : Bytes) → length s < fuel → release_loop fuel s ≡ some (any_header (split 10 s))
unfolding release_loop any_header
release_loop_lines zero s h = absurd (omega arith)
release_loop_lines (suc fuel) [] h = unfold split is_hash_header trim_right bytes_eq in refl
release_loop_lines (suc fuel) (c ∷ cs) h = elim (Option-cases (index_byte 10 (c ∷ cs))) [
  | inl e ↦ rw (e, release_loop, split-none 10 (c ∷ cs) e) (ground (arith, release_loop-nil fuel))
  | inr (i, e) ↦
      rw (e, release_loop, split-index_byte 10 (c ∷ cs) i e, add-one i)
        (ground (arith, release_loop_lines fuel (drop (suc i) (c ∷ cs)), length-drop i cs))
]

take-all : (n : ℕ) (s : Bytes) → length s ≤ n → take n s ≡ s
take-all zero [] h = refl
take-all zero (x ∷ s) h = absurd (omega arith)
take-all (suc n) [] h = refl
take-all (suc n) (x ∷ s) h = ap (◌∷◌ x) (take-all n s (omega arith))

cut : (n : ℕ) (s : Bytes) → (if ltb n (length s) then take n s else s) ≡ take n s
cut n s = ground (arith, take-all n s)

-- SniffRelease ends, and says whether one of the lines of the first 64 KiB is a hash block's header.
pub sniff_release_lines :
    (head : Bytes)
    → sniff_release head ≡ some (any_header (split 10 (take release_sniff_bytes head)))
unfolding sniff_release
sniff_release_lines head =
    rw (cut release_sniff_bytes head)
      (release_loop_lines _ (take release_sniff_bytes head) (omega arith))

no_tag : (c : ℕ) (rest : Bytes) → c < 0x80 → sig_packet_body_offset (c ∷ rest) ≡ none
unfolding sig_packet_body_offset
no_tag c rest h = ground arith

-- A body that starts with an ASCII byte passes the detached-signature sniff by its armor line only.
pub sniff_release_gpg_text :
    (c : ℕ) (rest : Bytes)
    → c < 0x80
    → sniff_release_gpg (c ∷ rest)
      ≡ has_prefix (trim_left_set (b' ' ∷ 9 ∷ 13 ∷ 10 ∷ []) (c ∷ rest)) armor_sig_begin
unfolding sniff_release_gpg
sniff_release_gpg_text c rest h = rw (no_tag c rest h, sniff_release_gpg) (ground arith)

cut_prefix-slash : (s t : Bytes) → cut_prefix (s ++ (slash ∷ t)) (s ++ codes "/") ≡ some t
unfolding cut_prefix
cut_prefix-slash [] [] = refl
cut_prefix-slash [] (x ∷ t) = refl
cut_prefix-slash (x ∷ s) t = ground (arith, cut_prefix-slash s t)

abbrev pub IndexOf : Bytes → Bytes → Type 0
IndexOf s n =
    (suite_path (s ++ (slash ∷ n)) ≡ s)
    × (classify_suite_file s (s ++ (slash ∷ n)) ≡ file_flat_index)

-- What a root index name has to be.
record IsIndexName (n : Bytes) : Type 0 where
  member : IsMember n
  index : (s : Bytes) → has_dists_segment s ≡ false → name_file s n ≡ file_flat_index

classify-index :
    (p n : Bytes)
    → suite_path p ≢ []
    → has_dists_segment (suite_path p) ≡ false
    → length (suite_path p) ≤ max_suite_path_bytes
    → IsIndexName n
    → IndexOf (suite_path p) n
unfolding classify_suite_file
classify-index p n h d l i = (suite_path_members p n h i.member, classified)
  where
    classified : classify_suite_file (suite_path p) (suite_path p ++ (slash ∷ n)) ≡ file_flat_index
    classified =
        rw (cut_prefix-slash (suite_path p) n, classify_suite_file, i.index (suite_path p) d)
          (ground (arith, bytes_eq_iff (suite_path p) []))

is_some : Option Bytes → Bool
is_some none = false
is_some (some e) = true

-- The same as a test.
is_index_name : Bytes → Bool
is_index_name n =
    all (λ c. not (c == slash)) n
    && clean_bytes n
    && is_flat_member n
    && not (is_bad_segment n)
    && not (bytes_eq n (codes "dists"))
    && not (bytes_eq n (codes "InRelease"))
    && not (bytes_eq n (codes "Release"))
    && not (bytes_eq n (codes "Release.gpg"))
    && is_some (flat_index_ext n)

is_index_name-IsIndexName : (n : Bytes) → is_index_name n ≡ true → IsIndexName n
unfolding is_index_name
is_index_name-IsIndexName n h = record {
  member = ground arith;
  index = λ s d. unfold name_file is_some in ground arith;
}

all-IsIndexName : (ns : List Bytes) → all is_index_name ns ≡ true → All IsIndexName ns
all-IsIndexName [] h = tt
all-IsIndexName (n ∷ ns) h =
    (is_index_name-IsIndexName n (ground arith), all-IsIndexName ns (ground arith))

index_names : All IsIndexName flat_index_names
unfolding flat_index_names stem_names is_index_name run_grammar is_some flat_index_ext known_ext
    flat_index_magic cut_prefix bytes_eq
index_names = all-IsIndexName flat_index_names refl

All-IndexOf :
    (p : Bytes) (ns : List Bytes)
    → suite_path p ≢ []
    → has_dists_segment (suite_path p) ≡ false
    → length (suite_path p) ≤ max_suite_path_bytes
    → All IsIndexName ns
    → All (IndexOf (suite_path p)) ns
All-IndexOf p [] h d l i = tt
All-IndexOf p (n ∷ ns) h d l i = (classify-index p n h d l i.0, All-IndexOf p ns h d l i.1)

-- Every root index name that FlatIndexNames lists, behind a flat suite that SuitePath found, is a
-- path of that same suite, and ClassifySuiteFile calls it a flat index; the request has no "dists"
-- segment, and the suite is within the length that is tracked.
pub flat_index_names_classified :
    (p : Bytes)
    → suite_path p ≢ []
    → has_dists_segment p ≡ false
    → length (suite_path p) ≤ max_suite_path_bytes
    → All (IndexOf (suite_path p)) flat_index_names
unfolding is_flat_suite_path
flat_index_names_classified p h d l =
    All-IndexOf p flat_index_names h (ground (arith, suite_path-IsCanonical p h)) l index_names
