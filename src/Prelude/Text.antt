-- ===== src/Prelude/Text.antt =====
-- Texts. A native `String` where the program only builds and compares whole texts, and the list
-- of its code points where it looks inside one: Python's `in` and `count` on `str`.
use Prim.Native.Nat.{ℕ, zero, suc, ◌+◌, ◌-◌, ◌/◌, ◌%◌}
use Prim.Native.Char.{code}
use Prim.Native.String.{String}
use Prim.Native.String.{◌++◌ as append}
use text.Mathlib.Text.{◌==◌ as str_eq}
use text.Mathlib.TextLemmas.{nil-append, cons-append}
use text.Mathlib.TextEquality.{eq_iff}
use mathlib.Core.Option
use mathlib.Core.Logic.{inl, inr}
use mathlib.Core.Bool.{Bool, true, false, ◌&&◌, ◌||◌}
use mathlib.Core.Option.{Option, none, some}
use mathlib.Core.List.{List, [], ◌∷◌, ◌++◌}
use mathlib.Core.Path.{◌≡◌, ◌∙◌, ap}
use package.qpep.Prelude.Tests.{◌==◌, ltb, Bool-cases, if◌then◌else◌}
use package.qpep.Prelude.Lists.{length}

abbrev pub codes : String → List ℕ
codes String.[] = []
codes (String.◌∷◌ c s) = code c ∷ codes s

pub codes-append : (s t : String) → codes (append s t) ≡ codes s ++ codes t
codes-append String.[] t = ap codes (nil-append t)
codes-append (String.◌∷◌ c s) t =
    ap codes (cons-append c s t) ∙ ap (λ l. code c ∷ l) (codes-append s t)

-- The texts that `+` puts together, in order.
abbrev pub join : List String → String
join [] = ""
join (s ∷ l) = append s (join l)

-- `str(os.getenv(k))`
abbrev pub str : Option String → String
str none = "None"
str (some s) = s

abbrev pub is_prefix : List ℕ → List ℕ → Bool
is_prefix [] s = true
is_prefix (p ∷ ps) [] = false
is_prefix (p ∷ ps) (c ∷ s) = p == c && is_prefix ps s

-- `pat in s`
unfoldable pub occurs : List ℕ → List ℕ → Bool
occurs pat [] = is_prefix pat []
occurs pat (c ∷ s) = is_prefix pat (c ∷ s) || occurs pat s

-- `s.count(pat)`: occurrences that do not overlap, from the left; `skip` counts down the rest of
-- an occurrence that has been counted.
unfoldable pub count_from : ℕ → List ℕ → List ℕ → ℕ
count_from skip pat [] = 0
count_from (suc skip) pat (c ∷ s) = count_from skip pat s
count_from zero pat (c ∷ s) =
    let hit = is_prefix pat (c ∷ s) in
    (if hit then 1 else 0) + count_from (if hit then length pat - 1 else 0) pat s

abbrev pub contains : String → String → Bool
contains pat s = occurs (codes pat) (codes s)

abbrev pub count : String → String → ℕ
count pat s = count_from 0 (codes pat) (codes s)

digit : ℕ → String
digit zero = "0"
digit (suc zero) = "1"
digit (suc (suc zero)) = "2"
digit (suc (suc (suc zero))) = "3"
digit (suc (suc (suc (suc zero)))) = "4"
digit (suc (suc (suc (suc (suc zero))))) = "5"
digit (suc (suc (suc (suc (suc (suc zero)))))) = "6"
digit (suc (suc (suc (suc (suc (suc (suc zero))))))) = "7"
digit (suc (suc (suc (suc (suc (suc (suc (suc zero)))))))) = "8"
digit _ = "9"

-- The digits of `n` in front of `acc`, in at most `fuel` of them.
digits_from : ℕ → ℕ → String → String
unfolding digit
digits_from zero n acc = acc
digits_from (suc fuel) n acc =
    let rest = digits_from fuel (n / 10) (append (digit (n % 10)) acc) in
    if ltb n 10 then append (digit n) acc else rest

-- `str(n)`: a number has at most as many digits as its successor counts.
unfoldable pub str_of_int : ℕ → String
unfolding digits_from
str_of_int n = digits_from (suc n) n ""

pub string_discrete : Discrete String
string_discrete a b = elim (Bool-cases (str_eq a b)) [
  | inl same ↦ yes ((eq_iff a b).0 same)
  | inr other ↦ no (λ p. cc ((eq_iff a b).1 p, other))
]

pub name_discrete : Discrete (Option String)
name_discrete = Option.discrete string_discrete
