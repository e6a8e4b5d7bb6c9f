-- ===== src/Numbers/Short.antt =====
-- shortString of common/numbers.ts. How a number is printed is a parameter: `toString`, and
-- `toLocaleString` in scientific notation.
use reserve_protocol.Base.{ℕ, ◌&&◌, Option, some, List, [], ◌∷◌, ◌==◌, if◌then◌else◌}
use reserve_protocol.Base.Int.{ℤ, pos, negsuc}
use reserve_protocol.BigNumber.{BigNumbers}
use reserve_protocol.Numbers.{◌>>=◌}
use reserve_protocol.Numbers.Parse.{BigNumberish, whole, bn}

pub record Printer : Type 0 where
  pub to_string : ℤ → List ℕ
  pub to_scientific : ℤ → List ℕ

-- `s.replace('E', 'e')`: the first one
unfoldable pub replace_e : List ℕ → List ℕ
replace_e [] = []
replace_e (c ∷ s) = let rest = replace_e s in if c == b'E' then b'e' ∷ s else c ∷ rest

module _ (big : BigNumbers) (printer : Printer) where
  unfoldable pub short_string : BigNumberish → Option (List ℕ)
  unfolding replace_e
  short_string input = do
    max_simple ← bn big (whole (pos 10_000))
    min_simple ← bn big (whole (negsuc 9999))
    x ← bn big input
    some (
        if big.gt x min_simple && big.lt x max_simple
        then printer.to_string x
        else replace_e (printer.to_scientific x))
