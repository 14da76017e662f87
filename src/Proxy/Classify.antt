-- ===== src/Proxy/Classify.antt =====
-- internal/proxy/classify.go: which paths are metadata. path.Base, path.Dir and path.Clean are those of Go's
-- path package.
pub mod Artifacts
use apt_cacher_ultra.Base.{
  ℕ, suc, ◌+◌, Bool, true, false, not, ◌&&◌, ◌||◌, Option, none, some, List, [], ◌∷◌, ◌++◌, take,
  drop, if◌then◌else◌, ◌==◌, Bytes, codes, bytes_eq, has_prefix, last_index_byte, trim_right, split,
  join,
}
use apt_cacher_ultra.Cache.Newest.{is_in}
use apt_cacher_ultra.Proxy.Uri.{is_empty}

abbrev pub metadata_prefixes : List Bytes
metadata_prefixes =
    codes "Packages"
    ∷ codes "Sources"
    ∷ codes "Contents-"
    ∷ codes "Translation-"
    ∷ codes "Components-"
    ∷ codes "icons-"
    ∷ []

abbrev pub pool_artifact_suffixes : List Bytes
pool_artifact_suffixes =
    codes ".deb"
    ∷ codes ".udeb"
    ∷ codes ".ddeb"
    ∷ codes ".dsc"
    ∷ codes ".buildinfo"
    ∷ codes ".changes"
    ∷ codes ".diff.gz"
    ∷ []

abbrev pub metadata_exact : List Bytes
metadata_exact = codes "InRelease" ∷ codes "Release" ∷ codes "Release.gpg" ∷ []

-- strings.HasSuffix and strings.Contains.
unfoldable pub has_suffix : Bytes → Bytes → Bool
has_suffix [] t = is_empty t
has_suffix (c ∷ s) t = bytes_eq (c ∷ s) t || has_suffix s t

unfoldable pub contains_text : Bytes → Bytes → Bool
contains_text [] t = is_empty t
contains_text (c ∷ s) t = has_prefix (c ∷ s) t || contains_text s t

unfoldable pub any_suffix : Bytes → List Bytes → Bool
any_suffix base [] = false
any_suffix base (s ∷ ss) = has_suffix base s || any_suffix base ss

unfoldable pub any_prefix : Bytes → List Bytes → Bool
any_prefix base [] = false
any_prefix base (s ∷ ss) = has_prefix base s || any_prefix base ss

unfoldable pub behind_slash : Bytes → Option ℕ → Bytes
behind_slash s none = s
behind_slash s (some i) = drop (i + 1) s

unfoldable pub or_slash : Bytes → Bytes
or_slash [] = codes "/"
or_slash (c ∷ s) = c ∷ s

unfoldable pub path_base : Bytes → Bytes
path_base [] = codes "."
path_base (c ∷ s) =
    let cut = trim_right (codes "/") (c ∷ s) in
    or_slash (behind_slash cut (last_index_byte b'/' cut))

-- path.Clean on the segments: those kept so far, the last one first.
unfoldable pub up_one : Bool → List Bytes → List Bytes
up_one rooted [] = if rooted then [] else codes ".." ∷ []
up_one rooted (s ∷ kept) = if bytes_eq s (codes "..") then codes ".." ∷ (s ∷ kept) else kept

unfoldable pub clean_segments : Bool → List Bytes → List Bytes → List Bytes
clean_segments rooted kept [] = kept
clean_segments rooted kept (s ∷ ss) =
    let stay = clean_segments rooted kept ss in
    let up = clean_segments rooted (up_one rooted kept) ss in
    let down = clean_segments rooted (s ∷ kept) ss in
    if is_empty s || bytes_eq s (codes ".")
    then stay
    else if bytes_eq s (codes "..")
    then up
    else down

unfoldable pub turned : List Bytes → List Bytes → List Bytes
turned done [] = done
turned done (s ∷ ss) = turned (s ∷ done) ss

unfoldable pub or_dot : Bytes → Bytes
or_dot [] = codes "."
or_dot (c ∷ s) = c ∷ s

unfoldable pub path_clean : Bytes → Bytes
path_clean p =
    let rooted = has_prefix p (codes "/") in
    let clean = join b'/' (turned [] (clean_segments rooted [] (split b'/' p))) in
    if rooted then codes "/" ++ clean else or_dot clean

unfoldable pub dir_part : Bytes → Option ℕ → Bytes
dir_part p none = []
dir_part p (some i) = take (i + 1) p

unfoldable pub path_dir : Bytes → Bytes
path_dir p = path_clean (dir_part p (last_index_byte b'/' p))

unfoldable pub is_pool_artifact : Bytes → Bool
is_pool_artifact base =
    if any_suffix base pool_artifact_suffixes
    then true
    else contains_text base (codes "_") && contains_text base (codes ".tar.")

unfoldable pub is_metadata : Bytes → Bool
is_metadata p =
    let base = path_base p in
    if is_empty p
    then false
    else if contains_text p (codes "/by-hash/")
    then true
    else if is_in base metadata_exact
    then true
    else if bytes_eq base (codes "Index") && has_suffix (path_base (path_dir p)) (codes ".diff")
    then true
    else if is_pool_artifact base
    then false
    else any_prefix base metadata_prefixes
