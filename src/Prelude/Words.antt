-- ===== src/Prelude/Words.antt =====
-- Unsigned and two's complement words as little-endian bytes: what `memcpy` of an integer copies on
-- the little-endian targets that the sources are built for.
use Prim.Native.Nat.{ℕ, zero, suc, ◌+◌, ◌-◌, ◌*◌, ◌/◌, ◌%◌, ◌^◌, ◌<◌}
use mathlib.Core.Path.{◌≡◌, refl, ap}
use mathlib.Core.List.{List, [], ◌∷◌}
use native.Mathlib.Omega.{arith}
use robotraconteur_pyodide.Prelude.Tests.{ltb, if◌then◌else◌}
use robotraconteur_pyodide.Prelude.Lists.{length, All}
use robotraconteur_pyodide.Prelude.Int.{ℤ, pos, negsuc, ◌≤ℤ◌}

abbrev pub IsByte : ℕ → Type 0
IsByte b = b < 256

-- The lowest `k` bytes of `v`, lowest first.
abbrev pub le_bytes : ℕ → ℕ → List ℕ
le_bytes zero v = []
le_bytes (suc k) v = (v % 256) ∷ le_bytes k (v / 256)

-- The number that a list of bytes stands for.
abbrev pub le_value : List ℕ → ℕ
le_value [] = 0
le_value (b ∷ bs) = b + 256 * le_value bs

pub length-le_bytes : (k v : ℕ) → length (le_bytes k v) ≡ k
length-le_bytes zero v = refl
length-le_bytes (suc k) v = ap suc (length-le_bytes k (v / 256))

pub le_bytes-IsByte : (k v : ℕ) → All IsByte (le_bytes k v)
le_bytes-IsByte zero v = tt
le_bytes-IsByte (suc k) v = (omega arith, le_bytes-IsByte k (v / 256))

-- Reading the bytes of a word gives the word modulo its width.
pub le_value-le_bytes_one : (v : ℕ) → v < 2 ^ 8 → le_value (le_bytes 1 v) ≡ v
le_value-le_bytes_one v h = omega arith

pub le_value-le_bytes_two : (v : ℕ) → v < 2 ^ 16 → le_value (le_bytes 2 v) ≡ v
le_value-le_bytes_two v h = omega arith

pub le_value-le_bytes_four : (v : ℕ) → v < 2 ^ 32 → le_value (le_bytes 4 v) ≡ v
le_value-le_bytes_four v h = omega arith

pub le_value-le_bytes_eight : (v : ℕ) → v < 2 ^ 64 → le_value (le_bytes 8 v) ≡ v
le_value-le_bytes_eight v h = omega arith

-- `v` as the pattern of a two's complement word with `m` values, and the number of a pattern.
abbrev pub to_word : ℕ → ℤ → ℕ
to_word m (pos n) = n % m
to_word m (negsuc n) = m - 1 - n % m

abbrev pub of_word : ℕ → ℕ → ℤ
of_word m p = if ltb p (m / 2) then pos p else negsuc (m - p - 1)

-- `v` is a value of the two's complement type with `m` values.
abbrev pub IsSigned : ℕ → ℤ → Type 0
IsSigned m v = (negsuc (m / 2 - 1) ≤ℤ v) × (v ≤ℤ pos (m / 2 - 1))
