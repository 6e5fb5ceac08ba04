-- ===== src/Prelude/Numbers.antt =====
-- JavaScript's number as far as the sources use it: a type with the operations below, which the
-- models take as a parameter.
use Prim.Native.String.{String}
use Prim.Native.Nat.{ℕ}
use mathlib.Core.Bool.{Bool}

pub record Numbers (N : Type 0) : Type 0 where
  pub zero : N
  pub one : N
  -- a numeral of the source
  pub of_nat : ℕ → N
  -- `Number(text)`, which is NaN where the text is no number
  pub of_text : String → N
  -- `String(n)`
  pub to_text : N → String
  -- `Number.isNaN(n)`
  pub is_nan : N → Bool
  -- `a < b` and `a <= b`, false where one of them is NaN
  pub lt : N → N → Bool
  pub le : N → N → Bool
