-- ===== src/Base/Bytes.antt =====
-- Big-endian numbers in byte strings, as `encoding/binary` writes and reads them. A byte string is a
-- list of numbers.
use Prim.Native.Nat.{ℕ, zero, suc, ◌+◌, ◌*◌, ◌/◌, ◌%◌, ◌^◌, ◌<◌}
use mathlib.Core.Path.{◌≡◌, refl, ap, ◌∙◌}
use mathlib.Core.List.{List, [], ◌∷◌, ◌++◌, append_assoc}
use mathlib.Core.Option.{Option, none, some}
use native.Mathlib.Nat.{pow-suc}
use fecalia.Base.Lists.{length, length-append}
use native.Mathlib.Omega.{arith}

-- The last `k` bytes of `v`, the most significant first: `AppendUint64` at 8, `AppendUint16` at 2.
unfoldable pub be : ℕ → ℕ → List ℕ
be zero v = []
be (suc k) v = be k (v / 256) ++ (v % 256 ∷ [])

-- `k` bytes read on top of the number `acc`, and the bytes behind them; none if there are fewer.
unfoldable pub read_be : ℕ → ℕ → List ℕ → Option (ℕ × List ℕ)
read_be zero acc b = some (acc, b)
read_be (suc k) acc [] = none
read_be (suc k) acc (x ∷ b) = read_be k (acc * 256 + x) b

read_be-zero : (acc : ℕ) (rest : List ℕ) → read_be 0 acc rest ≡ some (acc, rest)
unfolding read_be
read_be-zero acc rest = refl

-- One byte more.
read_be-suc :
    (k acc v : ℕ) (b : List ℕ) (x : ℕ) (rest : List ℕ)
    → read_be k acc b ≡ some (v, x ∷ rest)
    → read_be (suc k) acc b ≡ some (v * 256 + x, rest)
unfolding read_be
read_be-suc zero acc v [] x rest e = cc e
read_be-suc zero acc v (y ∷ b) x rest e = cc e
read_be-suc (suc k) acc v [] x rest e = cc e
read_be-suc (suc k) acc v (y ∷ b) x rest e = read_be-suc k (acc * 256 + y) v b x rest e

-- What was written is read back, and the rest is left.
pub read_be-be :
    (k acc v : ℕ) (rest : List ℕ)
    → v < 256 ^ k
    → read_be k acc (be k v ++ rest) ≡ some (acc * 256 ^ k + v, rest)
unfolding be
read_be-be zero acc v rest h =
    let e : acc ≡ acc * 1 + v = omega arith in
    read_be-zero acc rest ∙ ap (λ (n : ℕ). some (n, rest)) e
read_be-be (suc k) acc v rest h =
    let p = pow-suc 256 k in
    let prefix = read_be-be k acc (v / 256) (v % 256 ∷ rest) (omega (arith, p)) in
    let e : (acc * 256 ^ k + v / 256) * 256 + v % 256 ≡ acc * 256 ^ suc k + v =
      omega (arith, p, ap (λ (t : ℕ). acc * t) p) in
    ap (read_be (suc k) acc) (append_assoc (be k (v / 256)) (v % 256 ∷ []) rest)
    ∙ read_be-suc k acc _ _ _ rest prefix
    ∙ ap (λ (n : ℕ). some (n, rest)) e

-- Too few bytes are not read.
pub read_be-short : (k acc : ℕ) (b : List ℕ) → length b < k → read_be k acc b ≡ none
unfolding read_be
read_be-short zero acc b h = elim h [ ]
read_be-short (suc k) acc [] h = refl
read_be-short (suc k) acc (x ∷ b) h = read_be-short k (acc * 256 + x) b (omega arith)

pub length-be : (k v : ℕ) → length (be k v) ≡ k
unfolding be
length-be zero v = refl
length-be (suc k) v =
    omega (arith, length-append (be k (v / 256)) (v % 256 ∷ []), length-be k (v / 256))
