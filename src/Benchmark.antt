-- ===== src/Benchmark.antt =====
-- opensand-testbed/benchmarks.py: what the benchmarks share. A benchmark keeps its results, so a
-- method is an action on them and on the services; what was stored before an exception stays.
-- The numbers of a report are Python floats: their type is a parameter, with what is done to them.
pub mod Iperf
pub mod Sitespeed
pub mod Speedtest
pub mod Printed
pub mod Relates
pub mod Inversion
pub mod Grows
use qpep.Prelude.{ℕ, String, Bool, Option, List, [], ◌∷◌}
use qpep.World.{Error, Result, ok, err, spinning, History, M}

-- A JSON document over the numbers of the report.
mutual
  pub data Json (Num : Type 0) : Type 0 where
    null : Json Num
    bool : Bool → Json Num
    num : Num → Json Num
    string : String → Json Num
    arr : Items Num → Json Num
    obj : Fields Num → Json Num

  pub data Items (Num : Type 0) : Type 0 where
    nil : Items Num
    cons : Json Num → Items Num → Items Num

  pub data Fields (Num : Type 0) : Type 0 where
    end : Fields Num
    field : String → Json Num → Fields Num → Fields Num

pub record Numbers : Type 1 where
  pub Num : Type 0
  pub zero_num : Num
  -- `.decode('unicode_escape')`; `none` for UnicodeDecodeError, a ValueError
  pub unicode_escape : List ℕ → Option (List ℕ)
  -- `json.loads` on the codes of a text; `none` for its exception
  pub loads : List ℕ → Option (Json Num)
  -- `float` on the codes of a text; `none` for ValueError
  pub to_float : List ℕ → Option Num
  -- `x * 1000`
  pub times_1000 : Num → Num

-- A method of an object with state `S`.
abbrev pub Method : Type 0 → Type 0 → Type 0
Method S A = S → History → Result A × S × History

infixl 5 ◌>>=◌ ◌>>◌
unfoldable pub ◌>>=◌ : {S A B : Type 0} → Method S A → (A → Method S B) → Method S B
◌>>=◌ m f s h =
    let (r, s', h') = m s h in
    elim r [ ok a ↦ f a s' h' | err e ↦ (err e, s', h') | spinning ↦ (spinning, s', h') ]

abbrev pub ◌>>◌ : {S A B : Type 0} → Method S A → Method S B → Method S B
m >> k = m >>= λ _. k

module _ {S A : Type 0} where
  abbrev pub pure : A → Method S A
  pure a s h = (ok a, s, h)

  abbrev pub raise : Error → Method S A
  raise e s h = (err e, s, h)

  -- An action that leaves the object alone.
  abbrev pub lift : M A → Method S A
  lift m s h = let (r, h') = m h in (r, s, h')
