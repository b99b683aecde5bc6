-- ===== src/Base/Words.antt =====
-- Go's `uint64` on native numbers: every sum and product is written with its wrap-around.
use Prim.Native.Nat.{ℕ, ◌+◌, ◌-◌, ◌*◌, ◌%◌, ◌^◌, ◌≤◌, ◌<◌}
use mathlib.Core.Path.{◌≡◌, sym, ap, ◌∙◌}
use mathlib.Core.Logic.{◌≢◌}
use native.Mathlib.Nat.{mod-eq_of_lt, mod-add-mod, mod-lt, mod-eq-sub-mod}
use native.Mathlib.Decide.{dec_lt, dec_le, ℕ_discrete}
use native.Mathlib.Omega.{arith}

abbrev pub u64_mod : ℕ
u64_mod = 2 ^ 64

-- uint64 a + b.
abbrev pub add64 : ℕ → ℕ → ℕ
add64 a b = (a + b) % u64_mod

-- uint64 a - b.
abbrev pub sub64 : ℕ → ℕ → ℕ
sub64 a b = (a + u64_mod - b) % u64_mod

-- uint64 a * b.
abbrev pub mul64 : ℕ → ℕ → ℕ
mul64 a b = a * b % u64_mod

-- Fewer than `w` steps round a ring of `w` cells do not come back to the start.
mod-add-ne : {w h k : ℕ} → h < w → 0 < k → k < w → (h + k) % w ≢ h
mod-add-ne {w} {h} {k} hh hp hk = elim (dec_lt (h + k) w) [
  | yes p ↦ omega (arith, mod-eq_of_lt p)
  | no p ↦ omega (
    arith,
    mod-eq-sub-mod {n = h + k} {m = w} (omega arith),
    mod-eq_of_lt {n = h + k - w} {m = w} (omega arith),
  )
]

mod_step : (w a k : ℕ) → 0 < w → k < w → (a + k) % w ≡ a % w → k ≡ 0
mod_step w a k hw hk e = elim (ℕ_discrete k 0) [
  | yes z ↦ z
  | no nz ↦ absurd (
      mod-add-ne {w = w} {h = a % w} {k = k} (mod-lt a hw) (omega arith) hk (mod-add-mod a w k ∙ e))
]

-- Two numbers of one stretch of `w` that share an index of a ring of `w` cells are one.
pub mod_window_inj :
    (w lo a b : ℕ) → 0 < w → lo ≤ a → a < lo + w → lo ≤ b → b < lo + w → a % w ≡ b % w → a ≡ b
mod_window_inj w lo a b hw la ha lb hb e = elim (dec_le a b) [
  | yes p ↦
      let s : b ≡ a + (b - a) = omega arith in
      omega (arith, mod_step w a (b - a) hw (omega arith) (ap (λ (t : ℕ). t % w) (sym s) ∙ sym e))
  | no p ↦
      let s : a ≡ b + (a - b) = omega arith in
      omega (arith, mod_step w b (a - b) hw (omega arith) (ap (λ (t : ℕ). t % w) (sym s) ∙ e))
]
