-- ===== src/Tests/Numbers.antt =====
-- Thousandths, in place of floats.
use Prim.Native.Nat.{max}
use koalisi.Common.{ℕ, ◌+◌, ◌-◌, ◌*◌, ◌/◌, true, List, [], ◌∷◌, leb, ltb}
use koalisi.Common.Floats.{Floats}

abbrev sum : List ℕ → ℕ
sum [] = 0
sum (x ∷ xs) = x + sum xs

abbrev multiplied : List ℕ → ℕ
multiplied [] = 1000
multiplied (x ∷ xs) = x * multiplied xs / 1000

abbrev pub thousandths : Floats
thousandths = record {
  F64 = ℕ;
  of_nat = λ n. n * 1000;
  add = λ a b. a + b;
  sub = λ a b. a - b;
  mul = λ a b. a * b / 1000;
  div = λ a b. a * 1000 / b;
  total = sum;
  product = multiplied;
  lt = ltb;
  le = leb;
  abs = λ a. a;
  max = max;
  is_finite = λ a. true;
  floor = λ a. a / 1000;
}
