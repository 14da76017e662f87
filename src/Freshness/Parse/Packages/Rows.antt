-- ===== src/Freshness/Parse/Packages/Rows.antt =====
-- What ParsePackages returns: rows that are safe to use, and the names that have no hash.
use apt_cacher_ultra.Base.{
  ℕ, zero, suc, ◌+◌, ◌^◌, ◌≤◌, ◌<◌, ◌≡◌, refl, ◌≢◌, inl, inr, true, false, ◌||◌, Option, none, some,
  List, [], ◌∷◌, leb, ◌==◌, arith, length, length-append, All, All-append, Bytes, codes, bytes_eq,
  bytes_eq_iff, Bool-cases, subst, parse_int, parse_int_bound, ℤ, pos, negsuc, drop_cr, raw_lines,
  trim_space, lowers_to, index_byte, take, drop,
}
use apt_cacher_ultra.Freshness.Parse.Checks.{
  PathError, ParseError, in_line, in_tail, Result, ok, err, ◌>>=◌, ok_inj, bind_ok, scan_buf_cap,
  valid_hex_sha256, validate_filename,
}
use apt_cacher_ultra.Freshness.Parse.Packages.{
  PackageRef, max_package_stanzas, Packages, no_packages, is_full, row_of, flush_gap, flush_named,
  flush, located, set_size, set_field, read_header, read_stanza_line, read_stanzas, finish_packages,
  parse_packages,
}

-- A row that a consumer may use.
abbrev pub IsGoodRow : PackageRef → Type 0
IsGoodRow r =
    (valid_hex_sha256 r.sha256 ≡ true) × (validate_filename r.filename ≡ none) × (r.size < 2 ^ 63)

abbrev IsSound : Packages → Type 0
IsSound p =
    All IsGoodRow p.out
    × All (λ f. f ≢ []) p.no_sha256
    × (length p.out + length p.no_sha256 ≤ max_package_stanzas)
    × (p.stanza.size < 2 ^ 63)

ne_nil : (f : Bytes) → bytes_eq f [] ≡ false → f ≢ []
ne_nil f e n = cc (e, (bytes_eq_iff f []).1 n)

flush_gap-IsSound : (p p' : Packages) → IsSound p → flush_gap p ≡ ok p' → IsSound p'
unfolding flush_gap is_full
flush_gap-IsSound p p' (rows, gaps, bound, size) e =
    elim (Bool-cases (bytes_eq p.stanza.filename [])) [
      | inl a ↦ subst IsSound (ok_inj (rw a at e)) (rows, gaps, bound, omega arith)
      | inr a ↦ elim (Bool-cases (leb max_package_stanzas (length p.out + length p.no_sha256))) [
        | inl b ↦ cc (rw (a, b) at e)
        | inr b ↦ subst IsSound (ok_inj (rw (a, b) at e)) (
          rows,
          All-append (λ f. f ≢ []) p.no_sha256 (p.stanza.filename ∷ []) gaps
              (ne_nil p.stanza.filename a, tt),
          ground (arith, length-append p.no_sha256 (p.stanza.filename ∷ [])),
          omega arith,
        )
      ]
    ]

flush_named-IsSound :
    (p : Packages) (o : Option PathError) (p' : Packages)
    → validate_filename p.stanza.filename ≡ o
    → valid_hex_sha256 p.stanza.sha256 ≡ true
    → IsSound p
    → flush_named p o ≡ ok p'
    → IsSound p'
unfolding flush_named is_full
flush_named-IsSound p (some x) p' f h s e = cc e
flush_named-IsSound p none p' f h (rows, gaps, bound, size) e =
    elim (Bool-cases (leb max_package_stanzas (length p.out + length p.no_sha256))) [
      | inl b ↦ cc (rw b at e)
      | inr b ↦ subst IsSound (ok_inj (rw b at e)) (
        All-append IsGoodRow p.out (row_of p.stanza ∷ []) rows ((h, f, size), tt),
        gaps,
        ground (arith, length-append p.out (row_of p.stanza ∷ [])),
        omega arith,
      )
    ]

flush-IsSound : (p p' : Packages) → IsSound p → flush p ≡ ok p' → IsSound p'
unfolding flush
flush-IsSound p p' s e =
    elim (Bool-cases (bytes_eq p.stanza.filename [] || bytes_eq p.stanza.sha256 [])) [
      | inl a ↦ flush_gap-IsSound p p' s (rw a at e)
      | inr a ↦ elim (Bool-cases (valid_hex_sha256 p.stanza.sha256)) [
        | inl v ↦
            flush_named-IsSound p (validate_filename p.stanza.filename) p' refl v s (rw (a, v) at e)
        | inr v ↦ cc (rw (a, v) at e)
      ]
    ]

located_ok :
    (f : ParseError → ParseError) (x : Result Packages) (p : Packages)
    → located f x ≡ ok p
    → x ≡ ok p
unfolding located
located_ok f (ok q) p e = e
located_ok f (err x) p e = cc e

set_size-IsSound :
    (p : Packages) (value : Bytes) (p' : Packages)
    → IsSound p
    → set_size p (parse_int value) ≡ ok p'
    → IsSound p'
set_size-IsSound p value p' s e = go (parse_int value) refl e
  where
    go : (o : Option ℤ) → parse_int value ≡ o → set_size p o ≡ ok p' → IsSound p'
    go none q x = unfold set_size in cc x
    go (some (negsuc n)) q x = unfold set_size in cc x
    go (some (pos n)) q x =
        unfold set_size in subst IsSound (ok_inj x) (s.0, s.1, s.2, parse_int_bound value n q)

-- A field other than the size leaves everything alone that the rows have.
set_field-IsSound :
    (p : Packages) (field value : Bytes) (p' : Packages)
    → IsSound p
    → set_field p field value ≡ ok p'
    → IsSound p'
unfolding set_field
set_field-IsSound p field value p' s e = elim (Bool-cases (lowers_to field (codes "filename"))) [
  | inl a ↦ subst IsSound (ok_inj (rw a at e)) s
  | inr a ↦ elim (Bool-cases (lowers_to field (codes "sha256"))) [
    | inl b ↦ subst IsSound (ok_inj (rw (a, b) at e)) s
    | inr b ↦ elim (Bool-cases (lowers_to field (codes "size"))) [
      | inl c ↦ set_size-IsSound p value p' s (rw (a, b, c) at e)
      | inr c ↦ elim (Bool-cases (lowers_to field (codes "package"))) [
        | inl d ↦ subst IsSound (ok_inj (rw (a, b, c, d) at e)) s
        | inr d ↦ elim (Bool-cases (lowers_to field (codes "architecture"))) [
          | inl g ↦ subst IsSound (ok_inj (rw (a, b, c, d, g) at e)) s
          | inr g ↦ elim (Bool-cases (lowers_to field (codes "version"))) [
            | inl h ↦ subst IsSound (ok_inj (rw (a, b, c, d, g, h) at e)) s
            | inr h ↦ subst IsSound (ok_inj (rw (a, b, c, d, g, h) at e)) s
          ]
        ]
      ]
    ]
  ]
]

read_header-IsSound :
    (p : Packages) (line : Bytes) (o : Option ℕ) (p' : Packages)
    → IsSound p
    → read_header p line o ≡ ok p'
    → IsSound p'
unfolding read_header
read_header-IsSound p line none p' s e = cc e
read_header-IsSound p line (some zero) p' s e = cc e
read_header-IsSound p line (some (suc i)) p' s e =
    set_field-IsSound p (trim_space (take (suc i) line)) (trim_space (drop (suc i + 1) line)) p' s e

read_stanza_line-IsSound :
    (n : ℕ) (p : Packages) (line : Bytes) (p' : Packages)
    → IsSound p
    → read_stanza_line n p line ≡ ok p'
    → IsSound p'
unfolding read_stanza_line
read_stanza_line-IsSound n p [] p' s e =
    flush-IsSound p p' s (located_ok (in_line n) (flush p) p' e)
read_stanza_line-IsSound n p (c ∷ line) p' s e = elim (Bool-cases (c == b' ' || c == 9)) [
  | inl a ↦ subst IsSound (ok_inj (rw a at e)) s
  | inr a ↦ read_header-IsSound p (c ∷ line) (index_byte b':' (c ∷ line)) p' s (
      located_ok (in_line n) (read_header p (c ∷ line) (index_byte b':' (c ∷ line))) p' (rw a at e))
]

read_stanzas-IsSound :
    (n : ℕ) (p : Packages) (ls : List Bytes) (p' : Packages)
    → IsSound p
    → read_stanzas n p ls ≡ ok p'
    → IsSound p'
unfolding read_stanzas
read_stanzas-IsSound n p [] p' s e = subst IsSound (ok_inj e) s
read_stanzas-IsSound n p (l ∷ ls) p' s e = elim (Bool-cases (leb scan_buf_cap (length l))) [
  | inl t ↦ cc (rw t at e)
  | inr t ↦
      let (p1, first, rest) =
        bind_ok (read_stanza_line n p (drop_cr l)) (λ x. read_stanzas (n + 1) x ls) (rw t at e) in
      read_stanzas-IsSound (n + 1) p1 ls p' (read_stanza_line-IsSound n p (drop_cr l) p1 s first)
        rest
]

finish_some :
    (text : Bytes) (p : Packages) (rows : List PackageRef) (gaps : List Bytes)
    → finish_packages text p ≡ ok (rows, gaps)
    → (p.out ≡ rows) × (p.no_sha256 ≡ gaps)
unfolding finish_packages
finish_some text p rows gaps e = ground arith

-- Every row that ParsePackages returns has a well-formed hash, a Filename that its check takes and a
-- size that fits an int64; every name that it reports without a hash is not empty; and rows and
-- names together are at most a million.
pub parse_packages_sound :
    (text : Bytes) (rows : List PackageRef) (gaps : List Bytes)
    → parse_packages text ≡ ok (rows, gaps)
    → All IsGoodRow rows
      × All (λ f. f ≢ []) gaps
      × (length rows + length gaps ≤ max_package_stanzas)
unfolding parse_packages
parse_packages_sound text rows gaps e =
    let (p, read, rest) =
      bind_ok (read_stanzas 1 no_packages (raw_lines text))
        (λ q. (located in_tail (flush q) >>= finish_packages text)) e in
    let (p', flushed, done) = bind_ok (located in_tail (flush p)) (finish_packages text) rest in
    let start : IsSound no_packages = (tt, tt, omega arith, omega arith) in
    let sound =
      flush-IsSound p p' (read_stanzas-IsSound 1 no_packages (raw_lines text) p start read)
        (located_ok in_tail (flush p) p' flushed) in
    let (same, same_gaps) = finish_some text p' rows gaps done in
    rw (← same, ← same_gaps) (sound.0, sound.1, sound.2)
