-- ===== src/Configurator/Changes.antt =====
-- What a list of edits does to the lines of the files, and a run of the configurator.
use qpep.Prelude.{
  ℕ, suc, ◌-◌, ◌==◌, ◌&&◌, ◌≡◌, refl, sym, ◌∙◌, ap, not, String, Bool, true, Option, List, [], ◌∷◌,
  ◌++◌, get_elem?, length, arith,
}
use mathlib.Core.Path.{fun_ext}
use text.Mathlib.Text.{◌==◌ as str_eq}
use qpep.Prelude.Text.{codes}
use qpep.World.{Result, ok, err, spinning, ⊤}
use qpep.Configurator.{Directory, Files, change_line, Edit, change_lines, ◌>>◌, main, main_edits}
use qpep.Configurator.Line.{lines_of, line_at, Fits, IsConfigured, Elsewhere, change_line-IsEdited}

abbrev pub AllFit : Directory → List Edit → Type 0
AllFit d [] = Unit
AllFit d (e ∷ es) = Fits d e × AllFit d es

-- No edit of the list is of the line of `e`.
abbrev pub is_apart : Edit → List Edit → Bool
is_apart e [] = true
is_apart e (f ∷ fs) =
    not (str_eq f.filename e.filename && (f.line_number == e.line_number)) && is_apart e fs

-- No two edits are of one line.
abbrev pub all_apart : List Edit → Bool
all_apart [] = true
all_apart (e ∷ es) = is_apart e es && all_apart es

abbrev pub AllConfigured : Directory → List Edit → Type 0
AllConfigured d [] = Unit
AllConfigured d (e ∷ es) = IsConfigured d e × AllConfigured d es

-- This line, counted from 1, is of no edit.
abbrev pub Untouched : List Edit → String → ℕ → Type 0
Untouched [] path number = Unit
Untouched (e ∷ es) path number = Elsewhere e path number × Untouched es path number

>>-ok : (m k : Files ⊤) (d : Directory) {d₁ : Directory} → m d ≡ (ok tt, d₁) → (m >> k) d ≡ k d₁
>>-ok m k d p = ap (λ (r : Result ⊤ × Directory). ((λ (x : Directory). r) >> k) d) p

AllFit-sizes :
    (d d' : Directory) (es : List Edit)
    → ((path : String) → length (lines_of d' path) ≡ length (lines_of d path))
    → AllFit d es
    → AllFit d' es
AllFit-sizes d d' [] same fit = tt
AllFit-sizes d d' (e ∷ es) same (f, fit) = (
  record {
    index = f.index;
    counted = f.counted;
    within = omega (arith, f.within, same e.filename);
    flat = f.flat;
  },
  AllFit-sizes d d' es same fit,
)

is_apart-Untouched :
    (e : Edit) (es : List Edit) (n : ℕ)
    → e.line_number ≡ suc n
    → is_apart e es ≡ true
    → Untouched es e.filename (suc n)
is_apart-Untouched e [] n c h = tt
is_apart-Untouched e (f ∷ fs) n c h =
    (ground (arith, h, c), is_apart-Untouched e fs n c (ground (arith, h)))

-- A list of edits, each of a line that is there and by a text of one line, no two of one line: the run ends well, every
-- line that is named has its text, and every other line is as before.
pub change_lines_lem :
    (es : List Edit) (d : Directory)
    → AllFit d es
    → all_apart es ≡ true
    → (d' : Directory) × (change_lines es d ≡ (ok tt, d'))
      × AllConfigured d' es
      × ((path : String) (n : ℕ) → Untouched es path (suc n) → line_at d' path n ≡ line_at d path n)
unfolding change_lines
change_lines_lem [] d fit apart = (d, refl, tt, λ path n u. refl)
change_lines_lem (e ∷ es) d (f, fit) apart =
    let (d₁, run, edited) = change_line-IsEdited d e f in
    let (d', rest, done, kept) =
      change_lines_lem es d₁ (AllFit-sizes d d₁ es edited.sizes fit) (ground (arith, apart)) in
    let index : e.line_number - 1 ≡ f.index = omega (arith, f.counted) in
    let still : line_at d' e.filename f.index ≡ line_at d₁ e.filename f.index =
      kept e.filename f.index (is_apart-Untouched e es f.index f.counted (ground (arith, apart))) in
    (
      d',
      >>-ok (change_line e.filename e.line_number (codes e.line_text)) (change_lines es) d run
          ∙ rest,
      (
        ap (get_elem? (lines_of d' e.filename)) index
            ∙ still
            ∙ sym (ap (get_elem? (lines_of d₁ e.filename)) index)
            ∙ edited.written,
        done,
      ),
      λ path n u. kept path n u.1 ∙ edited.kept path n u.0,
    )

append->> :
    (r : Result ⊤ × Directory) (m k : Files ⊤) (d : Directory)
    → ((λ (x : Directory). r) >> (m >> k)) d ≡ (((λ (x : Directory). r) >> m) >> k) d
append->> (ok _, d₁) m k d = refl
append->> (err e, d₁) m k d = refl
append->> (spinning, d₁) m k d = refl

change_lines-append :
    (es fs : List Edit) → change_lines (es ++ fs) ≡ (change_lines es >> change_lines fs)
unfolding change_lines
change_lines-append [] fs = refl
change_lines-append (e ∷ es) fs = fun_ext λ d.
    ap (λ k. (change_line e.filename e.line_number (codes e.line_text) >> k) d)
      (change_lines-append es fs)
    ∙ append->> (change_line e.filename e.line_number (codes e.line_text) d) (change_lines es)
        (change_lines fs) d

-- A run of the configurator is one run of all its edits.
main-eq-change_lines :
    (getenv : String → Option String) → main getenv ≡ change_lines (main_edits getenv)
unfolding main main_edits
main-eq-change_lines getenv = sym (simp change_lines-append)

main_edits-apart : (getenv : String → Option String) → all_apart (main_edits getenv) ≡ true
unfolding main_edits
main_edits-apart getenv = refl

-- Where every file has the lines that the configurator names and no address holds a newline, a
-- run ends well; then each of the sixteen lines has its text, and no other line has changed.
pub main_lem :
    (getenv : String → Option String) (d : Directory)
    → AllFit d (main_edits getenv)
    → (d' : Directory) × (main getenv d ≡ (ok tt, d'))
      × AllConfigured d' (main_edits getenv)
      × ((path : String) (n : ℕ)
          → Untouched (main_edits getenv) path (suc n)
          → line_at d' path n ≡ line_at d path n)
main_lem getenv d fit =
    let (d', run, done, kept) =
      change_lines_lem (main_edits getenv) d fit (main_edits-apart getenv) in
    (d', ap (λ m. m d) (main-eq-change_lines getenv) ∙ run, done, kept)
