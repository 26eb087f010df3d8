-- ===== src/SpeedtestCli/Best/Returned.antt =====
-- That `get_best_server` returns, and what.
use qpep.Prelude.{◌≡◌, ◌⊎◌, true, false, List, [], ◌∷◌}
use qpep.SpeedtestCli.{Libraries}

-- `<=` is a total preorder on the floats that occur, and `==` is equality.
pub record IsOrder (lib : Libraries) : Type 0 where
  pub same : (a b : lib.Float) → lib.same_float a b ≡ true → a ≡ b
  pub same_refl : (a : lib.Float) → lib.same_float a a ≡ true
  pub total : (a b : lib.Float) → lib.float_leb a b ≡ false → lib.float_leb b a ≡ true
  pub transitive :
      (a b c : lib.Float)
      → lib.float_leb a b ≡ true
      → lib.float_leb b c ≡ true
      → lib.float_leb a c ≡ true

module _ (lib : Libraries) where
  open lib use {Float, same_float, float_leb}

  abbrev IsKey : Float → List Float → Type 0
  IsKey d [] = ⊥
  IsKey d (e ∷ ds) = (d ≡ e) ⊎ IsKey d ds
