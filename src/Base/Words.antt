-- ===== src/Base/Words.antt =====
-- Fixed-width integers as their bit patterns, and the C views of memory that the code uses.
use Prim.Native.Nat.{ℕ, zero, suc, ◌%◌, ◌^◌, ◌≤◌}
use mathlib.Core.Path.{◌≡◌, refl, ap}
use mathlib.Core.List.{List, [], ◌∷◌, ◌++◌}
use mathlib.Core.Option.{Option, none, some}
use mathlib.Core.Option
use native.Mathlib.Omega.{arith}
use comnet.Base.Lists.{length, take}
use comnet.Base.Tests.{if◌then◌else◌, ◌==◌}

abbrev pub u16 : ℕ → ℕ
u16 n = n % 2 ^ 16

abbrev pub u32 : ℕ → ℕ
u32 n = n % 2 ^ 32

-- A C string: the bytes before the first NUL. The end of the list stands for a NUL.
unfoldable pub c_string : List ℕ → List ℕ
c_string [] = []
c_string (c ∷ cs) = if c == 0 then [] else c ∷ c_string cs

-- `string::resize`: cut off, or padded with NULs.
unfoldable pub resize : ℕ → List ℕ → List ℕ
resize zero s = []
resize (suc n) [] = 0 ∷ resize n []
resize (suc n) (c ∷ cs) = c ∷ resize n cs

-- The first `n` elements of an array; `none` is a read past its end.
unfoldable pub read_array : ℕ → List ℕ → Option (List ℕ)
read_array zero xs = some []
read_array (suc n) [] = none
read_array (suc n) (x ∷ xs) = Option.map (λ ys. x ∷ ys) (read_array n xs)

abbrev pub NonZero : List ℕ → Type 0
NonZero [] = Unit {0}
NonZero (c ∷ cs) = (1 ≤ c) × NonZero cs

pub length-resize : (n : ℕ) (s : List ℕ) → length (resize n s) ≡ n
unfolding resize
length-resize zero s = refl
length-resize (suc n) [] = ap suc (length-resize n [])
length-resize (suc n) (c ∷ cs) = ap suc (length-resize n cs)

-- With no NUL among its first `n` bytes, a text that is read as a C string and resized to `n`
-- keeps those bytes, whatever lies behind them.
pub resize-c_string :
    (n : ℕ) (xs beyond : List ℕ)
    → n ≤ length xs
    → NonZero (take n xs)
    → resize n (c_string (xs ++ beyond)) ≡ take n xs
unfolding resize c_string
resize-c_string zero xs beyond h z = refl
resize-c_string (suc n) [] beyond h z = absurd (omega arith)
resize-c_string (suc n) (x ∷ xs) beyond h z =
    ground (arith, resize-c_string n xs beyond (omega arith) z.1)

pub read_array-eq-take : (n : ℕ) (xs : List ℕ) → n ≤ length xs → read_array n xs ≡ some (take n xs)
unfolding read_array
read_array-eq-take zero xs h = refl
read_array-eq-take (suc n) [] h = absurd (omega arith)
read_array-eq-take (suc n) (x ∷ xs) h = rw (read_array-eq-take n xs (omega arith))
