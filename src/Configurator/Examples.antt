-- ===== src/Configurator/Examples.antt =====
-- The configurator on small files and on a directory that has all its lines.
use qpep.Prelude.{
  ℕ, suc, ◌≡◌, ◌≢◌, ◌⊎◌, ◌-◌, ◌&&◌, Bool, ltb, refl, String, Option, none, some, List, [], ◌∷◌,
  arith, true, replicate,
}
use qpep.Prelude.Text.{codes}
use qpep.World.{ok, err, index_error, file_error}
use qpep.Configurator.{
  Text, Directory, newline, readlines, change_line, Edit, edit, change_lines, main_edits, main,
  gateway_edits, proxy_st_edits, satellite_edits, terminal_edits, ws_ovpn_edits, ws_st_edits,
  ws_gw_edits, workstation_edits,
}
use qpep.Configurator.Lines.{has_no_newline}
use qpep.Configurator.Line.{lines_of, line_at, change_line_lem, change_line_error}
use qpep.Configurator.Changes.{AllFit, AllConfigured, Untouched, change_lines_lem, main_lem}

abbrev two_lines : Text
two_lines = codes "a\nb"

abbrev directory : Directory
directory path = some two_lines

change_line_lem_example :
    (d' : Directory) × (change_line "f" 2 (codes "new") directory ≡ (ok tt, d'))
    × (lines_of d' "f" ≡ codes "a\n" ∷ codes "new\n" ∷ [])
    × ((other : String) → "f" ≢ other → d' other ≡ some two_lines)
unfolding readlines
change_line_lem_example =
    change_line_lem directory "f" two_lines 1 (codes "new") refl refl (omega arith)

change_line_error_example :
    ((change_line "f" 3 (codes "new") directory ≡ (err index_error, directory))
      × (directory "f" ≢ none))
    ⊎ ((change_line "f" 3 (codes "new") directory ≡ (err file_error, directory))
        × (directory "f" ≡ none))
unfolding readlines lines_of
change_line_error_example = change_line_error directory "f" 2 (codes "new") (omega arith)

abbrev edits : List Edit
edits = edit "f" 1 ("x" ∷ []) ∷ edit "g" 2 ("y" ∷ []) ∷ edit "f" 2 ("z" ∷ []) ∷ []

edits-AllFit : AllFit directory edits
unfolding readlines lines_of
edits-AllFit = (
  record { index = 0; counted = refl; within = omega arith; flat = refl },
  (
    record { index = 1; counted = refl; within = omega arith; flat = refl },
    (record { index = 1; counted = refl; within = omega arith; flat = refl }, tt),
  ),
)

change_lines_lem_example :
    (d' : Directory) × (change_lines edits directory ≡ (ok tt, d'))
    × AllConfigured d' edits
    × ((path : String) (n : ℕ)
        → Untouched edits path (suc n)
        → line_at d' path n ≡ line_at directory path n)
change_lines_lem_example = change_lines_lem edits directory edits-AllFit refl

-- Thirty lines in every file, and addresses without a newline.
abbrev thirty : Directory
thirty path = some (replicate 30 newline)

abbrev environment : String → Option String
environment k = some "10.0"

all_in_thirty : List Edit → Bool
all_in_thirty [] = true
all_in_thirty (e ∷ es) =
    ltb 0 e.line_number
    && ltb e.line_number 31
    && has_no_newline (codes e.line_text)
    && all_in_thirty es

AllFit-thirty : (es : List Edit) → all_in_thirty es ≡ true → AllFit thirty es
unfolding all_in_thirty lines_of readlines
AllFit-thirty [] h = tt
AllFit-thirty (e ∷ es) h = (
  record {
    index = e.line_number - 1;
    counted = ground (arith, h);
    within = ground (arith, h);
    flat = ground (arith, h);
  },
  AllFit-thirty es (ground (arith, h)),
)

main_edits-AllFit : AllFit thirty (main_edits environment)
unfolding main_edits gateway_edits proxy_st_edits satellite_edits terminal_edits ws_ovpn_edits
    ws_st_edits ws_gw_edits workstation_edits all_in_thirty
main_edits-AllFit = AllFit-thirty (main_edits environment) refl

main_lem_example :
    (d' : Directory) × (main environment thirty ≡ (ok tt, d'))
    × AllConfigured d' (main_edits environment)
    × ((path : String) (n : ℕ)
        → Untouched (main_edits environment) path (suc n)
        → line_at d' path n ≡ line_at thirty path n)
main_lem_example = main_lem environment thirty main_edits-AllFit
