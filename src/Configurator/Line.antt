-- ===== src/Configurator/Line.antt =====
-- What one call of `change_line` does to the lines of its file, and where it fails.
use qpep.Prelude.{
  ℕ, suc, ◌-◌, ◌==◌, ◌&&◌, ◌<◌, ◌≤◌, ◌≡◌, ◌≢◌, sym, ◌∙◌, ap, subst, String, true, false, Option,
  none, some, List, [], ◌∷◌, ◌++◌, set, get_elem?, length, length-set, get_elem?-set_self,
  get_elem?-set_ne, arith, Option-cases, ◌⊎◌, inl, inr,
}
use text.Mathlib.Text.{◌==◌ as str_eq}
use text.Mathlib.TextEquality.{eq_iff}
use qpep.Prelude.Text.{codes, string_discrete}
use qpep.World.{ok, file_error, err, index_error}
use qpep.Configurator.{Text, Directory, newline, readlines, writelines, update, change_line, Edit}
use qpep.Configurator.Lines.{
  readlines-writelines, readlines-IsLines, set-IsLines, append-newline-full, has_no_newline,
}

-- The lines of a file, none if it is not there.
unfoldable pub lines_of : Directory → String → List Text
lines_of d path = elim (d path) [ none ↦ [] | some content ↦ readlines content ]

pub update_self :
    (d : Directory) (path : String) (content : Text) → update d path content path ≡ some content
update_self d path content = ground (arith, eq_iff path path)

pub update_ne :
    (d : Directory) (path other : String) (content : Text)
    → path ≢ other
    → update d path content other ≡ d other
update_ne d path other content ne = ground (arith, eq_iff path other)

lines_of-update :
    (d : Directory) (path : String) (lines : List Text)
    → lines_of (update d path (writelines lines)) path ≡ readlines (writelines lines)
unfolding lines_of
lines_of-update d path lines = rw (update_self d path (writelines lines), lines_of)

-- With a text of one line and a line number from 1, `change_line` on a file that has the line replaces that line, and no
-- other line and no other file.
pub change_line_lem :
    (d : Directory) (path : String) (content : Text) (n : ℕ) (text : Text)
    → d path ≡ some content
    → has_no_newline text ≡ true
    → n < length (readlines content)
    → (d' : Directory) × (change_line path (suc n) text d ≡ (ok tt, d'))
      × (lines_of d' path ≡ set (readlines content) n (text ++ newline ∷ []))
      × ((other : String) → path ≢ other → d' other ≡ d other)
unfolding change_line
change_line_lem d path content n text there flat within =
    let lines = set (readlines content) n (text ++ newline ∷ []) in
    (
      update d path (writelines lines),
      ground (arith, there, within),
      lines_of-update d path lines
          ∙ readlines-writelines lines (
              set-IsLines (readlines content) n _ (append-newline-full text flat)
                (readlines-IsLines content)),
      λ other ne. update_ne d path other (writelines lines) ne,
    )

-- The line numbered from 0, if the file has it.
abbrev pub line_at : Directory → String → ℕ → Option Text
line_at d path n = get_elem? (lines_of d path) n

-- The file of the edit has its line, counted from 1, and its text is one line.
pub record Fits (d : Directory) (e : Edit) : Type 0 where
  pub index : ℕ
  pub counted : e.line_number ≡ suc index
  pub within : index < length (lines_of d e.filename)
  pub flat : has_no_newline (codes e.line_text) ≡ true

-- The line of the edit has its text.
abbrev pub IsConfigured : Directory → Edit → Type 0
IsConfigured d e =
    line_at d e.filename (e.line_number - 1) ≡ some (codes e.line_text ++ newline ∷ [])

-- The edit is of another line than this one, counted from 1.
abbrev pub Elsewhere : Edit → String → ℕ → Type 0
Elsewhere e path number = (str_eq e.filename path && (e.line_number == number)) ≡ false

-- One edit that fits: its line is written, and no other.
pub record IsEdited (e : Edit) (d d' : Directory) : Type 0 where
  pub written : IsConfigured d' e
  pub kept :
      (path : String) (n : ℕ) → Elsewhere e path (suc n) → line_at d' path n ≡ line_at d path n
  pub sizes : (path : String) → length (lines_of d' path) ≡ length (lines_of d path)

content_of :
    (d : Directory) (path : String) (n : ℕ)
    → n < length (lines_of d path)
    → (content : Text) × (d path ≡ some content)
unfolding lines_of
content_of d path n h = elim (Option-cases (d path)) [
  | inl absent ↦ absurd (ground (arith, h, absent))
  | inr there ↦ there
]

lines_of-some :
    (d : Directory) (path : String) {content : Text}
    → d path ≡ some content
    → lines_of d path ≡ readlines content
unfolding lines_of
lines_of-some d path p = rw (p, lines_of)

lines_of-eq :
    (d d' : Directory) (path : String) → d' path ≡ d path → lines_of d' path ≡ lines_of d path
unfolding lines_of
lines_of-eq d d' path p = rw (p, lines_of)

-- Where the file lacks the line, `change_line` raises an IndexError; where there is no such file,
-- the error of `open`. Either way nothing is written.
pub change_line_error :
    (d : Directory) (path : String) (n : ℕ) (text : Text)
    → length (lines_of d path) ≤ n
    → ((change_line path (suc n) text d ≡ (err index_error, d)) × (d path ≢ none))
      ⊎ ((change_line path (suc n) text d ≡ (err file_error, d)) × (d path ≡ none))
unfolding change_line
change_line_error d path n text short = elim (Option-cases (d path)) [
  | inl absent ↦ inr (ground (arith, absent), absent)
  | inr (content, there) ↦
      let lacks : length (readlines content) ≤ n =
        omega (arith, short, ap length (lines_of-some d path there)) in
      inl (ground (arith, there, lacks), λ absent. cc (absent, there))
]

module _ (d d' : Directory) (e : Edit) (i : ℕ) (counted : e.line_number ≡ suc i)
    (within : i < length (lines_of d e.filename))
    (lines : lines_of d' e.filename
      ≡ set (lines_of d e.filename) i (codes e.line_text ++ newline ∷ []))
    (others : (other : String) → e.filename ≢ other → d' other ≡ d other) where
  line_written : IsConfigured d' e
  line_written =
      let index : e.line_number - 1 ≡ i = omega (arith, counted) in
      ap (get_elem? (lines_of d' e.filename)) index
      ∙ ap (λ l. get_elem? l i) lines
      ∙ get_elem?-set_self (lines_of d e.filename) i _ within

  line_kept :
      (path : String) (n : ℕ) → Elsewhere e path (suc n) → line_at d' path n ≡ line_at d path n
  line_kept path n apart = elim (string_discrete e.filename path) [
    | yes same ↦
        let other_line : i ≢ n = ground (arith, apart, eq_iff e.filename path, same, counted) in
        subst (λ x. line_at d' x n ≡ line_at d x n) same
          (ap (λ l. get_elem? l n) lines ∙ get_elem?-set_ne (lines_of d e.filename) _ other_line)
    | no differs ↦ ap (λ l. get_elem? l n) (lines_of-eq d d' path (others path differs))
  ]

  size_kept : (path : String) → length (lines_of d' path) ≡ length (lines_of d path)
  size_kept path = elim (string_discrete e.filename path) [
    | yes same ↦
        subst (λ x. length (lines_of d' x) ≡ length (lines_of d x)) same
          (ap length lines ∙ length-set (lines_of d e.filename) i _)
    | no differs ↦ ap length (lines_of-eq d d' path (others path differs))
  ]

pub change_line-IsEdited :
    (d : Directory) (e : Edit)
    → Fits d e
    → (d' : Directory) × (change_line e.filename e.line_number (codes e.line_text) d ≡ (ok tt, d'))
      × IsEdited e d d'
change_line-IsEdited d e f =
    let (content, there) = content_of d e.filename f.index f.within in
    let same = lines_of-some d e.filename there in
    let within : f.index < length (readlines content) = rw (← same) f.within in
    let text = codes e.line_text ++ newline ∷ [] in
    let (d', run, lines, others) =
      change_line_lem d e.filename content f.index (codes e.line_text) there f.flat within in
    let lines' : lines_of d' e.filename ≡ set (lines_of d e.filename) f.index text =
      lines ∙ ap (λ l. set l f.index text) (sym same) in
    (
      d',
      rw f.counted run,
      record {
        written = line_written d d' e f.index f.counted f.within lines' others;
        kept = line_kept d d' e f.index f.counted f.within lines' others;
        sizes = size_kept d d' e f.index f.counted f.within lines' others;
      },
    )
