-- ===== src/Observability/LogLimiter/Lines.antt =====
-- The lines that a limiter lets through in a sequence of calls.
use apt_cacher_ultra.Base.{
  ℕ, ◌+◌, ◌-◌, ◌≤◌, ◌≡◌, refl, inl, inr, Bool, true, false, Option, none, some, List, [], ◌∷◌,
  arith, length, Bool-cases,
}
use apt_cacher_ultra.Observability.LogLimiter.{LogLimiter, too_soon, allow}

-- A line that is written, at its time, with the number of calls that it reports as hidden.
pub record Line : Type 0 where
  pub at : ℕ
  pub hidden : ℕ

abbrev pub write : Bool → ℕ → ℕ → List Line → List Line
write true now n ls = record { at = now; hidden = n } ∷ ls
write false now n ls = ls

-- Calls of Allow at these times: the limiter behind them and the lines.
unfoldable pub limit : LogLimiter → ℕ → List ℕ → LogLimiter × List Line
limit l every [] = (l, [])
limit l every (now ∷ ts) =
    let (l1, ok, n) = allow l now every in
    let (l2, ls) = limit l1 every ts in (l2, write ok now n ls)

abbrev pub hidden_by : List Line → ℕ
hidden_by [] = 0
hidden_by (x ∷ ls) = x.hidden + hidden_by ls

abbrev pub FarEnough : ℕ → Option ℕ → ℕ → Type 0
FarEnough every none now = Unit {0}
FarEnough every (some last) now = every ≤ now - last

-- Each line comes at least `every` behind the one in front of it.
abbrev pub AreApart : ℕ → Option ℕ → List Line → Type 0
AreApart every last [] = Unit {0}
AreApart every last (x ∷ ls) = FarEnough every last x.at × AreApart every (some x.at) ls

far_enough :
    (every : ℕ) (last : Option ℕ) (now : ℕ)
    → too_soon last now every ≡ false
    → FarEnough every last now
unfolding too_soon
far_enough every none now e = tt
far_enough every (some last) now e = ground arith

-- A limiter's lines are at least `every` apart, the first one from the limiter's last line, and no call
-- is lost: every call is a line, or is reported as hidden by a later line, or is still counted.
pub limit_lem :
    (l : LogLimiter) (every : ℕ) (ts : List ℕ)
    → AreApart every l.last (limit l every ts).1
      × (length (limit l every ts).1
            + hidden_by (limit l every ts).1
            + (limit l every ts).0.suppressed
          ≡ length ts + l.suppressed)
unfolding limit allow
limit_lem l every [] = (tt, refl)
limit_lem l every (now ∷ ts) = elim (Bool-cases (too_soon l.last now every)) [
  | inl e ↦
      let (apart, counted) = limit_lem (record l { suppressed = l.suppressed + 1 }) every ts in
      rw e (apart, omega (arith, counted))
  | inr e ↦
      let (apart, counted) = limit_lem (record { last = some now; suppressed = 0 }) every ts in
      rw e ((far_enough every l.last now e, apart), omega (arith, counted))
]
