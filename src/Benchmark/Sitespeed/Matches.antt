-- ===== src/Benchmark/Sitespeed/Matches.antt =====
-- The search for load times in a report of browsertime.
use qpep.Prelude.{
  ℕ, ◌≡◌, ◌∙◌, refl, sym, ap, Bool, true, ◌&&◌, not, some, List, [], ◌∷◌, ◌++◌, append-nil, arith,
  ◌==◌,
}
use qpep.Prelude.Text.{codes}
use qpep.Benchmark.Sitespeed.{
  LoadTime, in_number, is_unit, number_run, load_time, load_here, found, find_loads,
}

-- A text without an L.
abbrev pub has_no_load : List ℕ → Bool
has_no_load [] = true
has_no_load (c ∷ s) = not (c == 76) && has_no_load s

abbrev pub all_in_number : List ℕ → Bool
all_in_number [] = true
all_in_number (c ∷ s) = in_number c && all_in_number s

-- A load time as browsertime prints it, after other text.
pub record Line : Type 0 where
  pub before : List ℕ
  pub first : ℕ
  pub digits : List ℕ
  pub unit : ℕ

abbrev pub print_line : Line → List ℕ → List ℕ
print_line l rest = l.before ++ (codes "Load: " ++ (l.first ∷ l.digits ++ l.unit ∷ rest))

abbrev pub print_lines : List Line → List ℕ → List ℕ
print_lines [] last = last
print_lines (l ∷ ls) last = print_line l (print_lines ls last)

abbrev pub load_of : Line → LoadTime
load_of l = (l.first ∷ l.digits, l.unit)

abbrev pub loads_of : List Line → List LoadTime
loads_of [] = []
loads_of (l ∷ ls) = load_of l ∷ loads_of ls

pub record IsLine (l : Line) : Type 0 where
  pub plain : has_no_load l.before ≡ true
  pub number : all_in_number (l.first ∷ l.digits) ≡ true
  pub unit_known : is_unit l.unit ≡ true

abbrev pub AllLines : List Line → Type 0
AllLines [] = Unit
AllLines (l ∷ ls) = IsLine l × AllLines ls

number_run-append :
    (digits : List ℕ) (u : ℕ) (rest : List ℕ)
    → all_in_number digits ≡ true
    → is_unit u ≡ true
    → number_run (digits ++ u ∷ rest) ≡ (digits, u ∷ rest)
unfolding number_run
number_run-append [] u rest d h = ground (arith, h)
number_run-append (c ∷ digits) u rest d h =
    ground (arith, d, number_run-append digits u rest (ground (arith, d)) h)

-- No match begins at another character than L.
find_loads-skip :
    (before rest : List ℕ)
    → has_no_load before ≡ true
    → find_loads (before ++ rest) ≡ find_loads rest
unfolding find_loads load_here
find_loads-skip [] rest h = refl
find_loads-skip (c ∷ before) rest h =
    ground (arith, h, find_loads-skip before rest (ground (arith, h)))

digits-no_load : (digits : List ℕ) → all_in_number digits ≡ true → has_no_load digits ≡ true
digits-no_load [] h = refl
digits-no_load (c ∷ digits) h = ground (arith, h, digits-no_load digits (ground (arith, h)))

has_no_load-append :
    (s t : List ℕ) → has_no_load s ≡ true → has_no_load t ≡ true → has_no_load (s ++ t) ≡ true
has_no_load-append [] t p q = q
has_no_load-append (c ∷ s) t p q = ground (arith, p, has_no_load-append s t (ground (arith, p)) q)

load_here-line :
    (first : ℕ) (digits : List ℕ) (u : ℕ) (rest : List ℕ)
    → all_in_number (first ∷ digits) ≡ true
    → is_unit u ≡ true
    → load_here (codes "Load: " ++ (first ∷ digits ++ u ∷ rest)) ≡ some (first ∷ digits, u)
unfolding load_here
load_here-line first digits u rest d h =
    ap load_time (number_run-append (first ∷ digits) u rest d h) ∙ ground (arith, h)

find_loads-cons :
    (c : ℕ) (s : List ℕ) → find_loads (c ∷ s) ≡ found (load_here (c ∷ s)) ++ find_loads s
unfolding find_loads
find_loads-cons c s = refl

find_loads-line :
    (first : ℕ) (digits : List ℕ) (u : ℕ) (rest : List ℕ)
    → all_in_number (first ∷ digits) ≡ true
    → is_unit u ≡ true
    → find_loads (codes "Load: " ++ (first ∷ digits ++ u ∷ rest))
      ≡ (first ∷ digits, u) ∷ find_loads rest
find_loads-line first digits u rest d h =
    let number = first ∷ digits in
    find_loads-cons 76 (codes "oad: " ++ (number ++ u ∷ rest))
    ∙ ap (λ m. found m ++ find_loads (codes "oad: " ++ (number ++ u ∷ rest)))
        (load_here-line first digits u rest d h)
    ∙ ap (λ ms. (number, u) ∷ ms)
        (find_loads-skip (codes "oad: ") (number ++ u ∷ rest) refl
          ∙ find_loads-skip number (u ∷ rest) (digits-no_load number d)
          ∙ find_loads-skip (u ∷ []) rest (ground (arith, h)))

-- From a report of any number of load times, with other text without an L before and after each,
-- the search takes exactly these load times, each with its unit, in their order.
pub find_loads-print_lines :
    (lines : List Line) (last : List ℕ)
    → AllLines lines
    → has_no_load last ≡ true
    → find_loads (print_lines lines last) ≡ loads_of lines
find_loads-print_lines [] last all plain =
    ap find_loads (sym (append-nil last))
    ∙ find_loads-skip last [] plain
    ∙ unfold find_loads in refl
find_loads-print_lines (l ∷ lines) last (is, all) plain =
    find_loads-skip l.before _ is.plain
    ∙ find_loads-line l.first l.digits l.unit (print_lines lines last) is.number is.unit_known
    ∙ ap (λ ms. load_of l ∷ ms) (find_loads-print_lines lines last all plain)
