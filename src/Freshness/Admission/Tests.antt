-- ===== src/Freshness/Admission/Tests.antt =====
-- The pool's theorems at concrete pools.
use apt_cacher_ultra.Base.{true, some, codes}
use apt_cacher_ultra.Freshness.Admission.{
  Admission, new_admission, try_acquire, release_host, release,
}
use apt_cacher_ultra.Freshness.Admission.Books.{
  starts, acquires, frees_host, frees, Books, Reach-Books,
}

-- Of three slots one is taken.
abbrev taken : Admission
taken = (try_acquire (new_admission 3) (codes "deb.debian.org") true).0

Reach-Books_example : Books (release (release_host taken (some 0)) (some 0))
Reach-Books_example = Reach-Books 3 (release (release_host taken (some 0)) (some 0)) (
    frees (release_host taken (some 0)) (some 0)
      (frees_host taken (some 0) (acquires (new_admission 3) (codes "deb.debian.org") true starts)))
