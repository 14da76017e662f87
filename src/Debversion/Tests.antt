-- ===== src/Debversion/Tests.antt =====
-- Runs of debversion.Compare, and the theorems at concrete versions.
use apt_cacher_ultra.Base.{◌≡◌, refl, arith, some, Bytes, codes, pos, negsuc}
use apt_cacher_ultra.Debversion.{parse, compare}
use apt_cacher_ultra.Debversion.Compare.{version_order, compare-version_order, compare_trans}

compare_tilde : compare (codes "1.0~rc1") (codes "1.0") ≡ some (negsuc 0)
unfolding compare
compare_tilde = refl

compare_epoch : compare (codes "1:0.9") (codes "1.0-1") ≡ some (pos 1)
unfolding compare
compare_epoch = refl

compare_numbers : compare (codes "1.010-1") (codes "1.9-1") ≡ some (pos 1)
unfolding compare
compare_numbers = refl

abbrev candidate : Bytes
candidate = codes "1:2.0~rc1-1"

abbrev released : Bytes
released = codes "1:2.0-1"

abbrev rebuilt : Bytes
rebuilt = codes "1:2.0-1+b10"

compare-version_order_example :
    compare candidate released ≡ some (version_order (parse candidate) (parse released))
compare-version_order_example = compare-version_order candidate released (omega arith) (omega arith)

compare_trans_example : compare candidate rebuilt ≡ some (negsuc 0)
unfolding compare
compare_trans_example =
    compare_trans candidate released rebuilt (omega arith) (omega arith) (omega arith) refl refl
      (λ e. cc e) (λ e. cc e)
