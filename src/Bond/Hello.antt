-- ===== src/Bond/Hello.antt =====
-- The epoch exchange inside probes: `Hello` and `ParseHello` of internal/bond/wire.go.
use fecalia.Base.{
  ℕ, ◌^◌, ◌<◌, ◌≡◌, refl, sym, ap, ◌∙◌, Bool, false, not, ◌&&◌, ◌||◌, Option, none, some, List, [],
  ◌∷◌, ◌++◌, append-nil, ◌==◌, arith, if◌then◌else◌, if_true, if_false, be, read_be, length,
  length-be, drop,
}
use fecalia.Frame.{◌>>=◌}
use fecalia.Frame.Body.{read_u8, read_u64}
use fecalia.Frame.Size.{behind_word}
use fecalia.Bond.{Epoch, version}

-- The letters of "bond".
abbrev pub hello_tag : List ℕ
hello_tag = 98 ∷ 111 ∷ 110 ∷ 100 ∷ []

unfoldable pub hello : Epoch → ℕ → List ℕ
hello epoch path = hello_tag ++ (version ∷ path ∷ (be 8 epoch.boot ++ be 8 epoch.generation))

-- The end of `ParseHello`: an epoch with a zero is no answer.
unfoldable pub set_epoch : Epoch → ℕ → Option (Epoch × ℕ)
set_epoch epoch path =
    if not (epoch.boot == 0) && not (epoch.generation == 0) then some (epoch, path) else none

unfoldable pub hello_fields : List ℕ → Option (Epoch × ℕ)
unfolding set_epoch
hello_fields b = do
  (path, b) ← read_be 1 0 b
  (boot, b) ← read_be 8 0 b
  (generation, b) ← read_be 8 0 b
  set_epoch (record { boot = boot; generation = generation }) path

abbrev is_tagged : List ℕ → Bool
is_tagged (a ∷ b ∷ c ∷ d ∷ v ∷ _) =
    (a == 98) && (b == 111) && (c == 110) && (d == 100) && (v == version)
is_tagged _ = false

-- `ParseHello`; the third result, false, is none.
unfoldable pub parse_hello : List ℕ → Option (Epoch × ℕ)
unfolding hello_fields
parse_hello b = if not (length b == 22) || not (is_tagged b) then none else hello_fields (drop 5 b)

-- An epoch whose two words are set and fit 64 bits is read back with its path.
pub parse_hello-hello :
    (epoch : Epoch) (path : ℕ)
    → 0 < epoch.boot
    → 0 < epoch.generation
    → epoch.boot < 2 ^ 64
    → epoch.generation < 2 ^ 64
    → parse_hello (hello epoch path) ≡ some (epoch, path)
unfolding parse_hello hello hello_fields set_epoch
parse_hello-hello epoch path set_boot set_generation boot generation =
    let w : List ℕ = be 8 epoch.boot ++ be 8 epoch.generation in
    let size : length w ≡ 16 =
      omega (arith, behind_word epoch.boot (be 8 epoch.generation), length-be 8 epoch.generation) in
    let words : read_be 8 0 (be 8 epoch.generation) ≡ some (epoch.generation, []) =
      ap (read_be 8 0) (sym (append-nil (be 8 epoch.generation)))
      ∙ read_u64 epoch.generation generation [] in
    let known : (not (length (hello_tag ++ (version ∷ path ∷ w)) == 22) || false) ≡ false =
      rw size refl in
    if_false (not (length (hello_tag ++ (version ∷ path ∷ w)) == 22) || false) _ _ known
    ∙ rw (read_u8 path, read_u64 epoch.boot boot, words)
        (if_true (not (epoch.boot == 0) && not (epoch.generation == 0)) _ _ (ground arith))
