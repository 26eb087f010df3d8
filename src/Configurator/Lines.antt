-- ===== src/Configurator/Lines.antt =====
-- `readlines` and `writelines` of Configurator.antt undo one another, and a line that is replaced
-- is the only one that `readlines` finds changed.
use qpep.Prelude.{
  ℕ, zero, suc, ◌≡◌, refl, ◌∙◌, ap, Bool, true, false, not, ◌&&◌, ◌||◌, List, [], ◌∷◌, ◌++◌, set,
  arith, ◌==◌, append-nil, Bool-cases, inl, inr,
}
use qpep.Configurator.{Text, newline, add_char, readlines, writelines}

-- Writing back all the lines of a text gives the text.
writelines-readlines : (s : Text) → writelines (readlines s) ≡ s
unfolding readlines writelines
writelines-readlines [] = refl
writelines-readlines (c ∷ s) =
    writelines-add_char c (readlines s) ∙ ap (λ (l : Text). c ∷ l) (writelines-readlines s)
  where
    writelines-add_char : (c : ℕ) (ls : List Text) → writelines (add_char c ls) ≡ c ∷ writelines ls
    writelines-add_char c [] = refl
    writelines-add_char c (l ∷ ls) = ground arith

-- No newline but one at the end.
abbrev pub is_full : Text → Bool
is_full [] = false
is_full (c ∷ []) = c == newline
is_full (c ∷ d ∷ l) = not (c == newline) && is_full (d ∷ l)

-- Not empty, and no newline.
abbrev pub is_partial : Text → Bool
is_partial [] = false
is_partial (c ∷ []) = not (c == newline)
is_partial (c ∷ d ∷ l) = not (c == newline) && is_partial (d ∷ l)

-- The lists that `readlines` returns.
abbrev pub IsLines : List Text → Type 0
IsLines [] = Unit
IsLines (l ∷ []) = (is_full l || is_partial l) ≡ true
IsLines (l ∷ m ∷ ls) = (is_full l ≡ true) × IsLines (m ∷ ls)

readlines-full : (l s : Text) → is_full l ≡ true → readlines (l ++ s) ≡ l ∷ readlines s
unfolding readlines
readlines-full [] s h = cc
readlines-full (c ∷ []) s h = full_char (readlines s)
  where
    full_char : (ls : List Text) → add_char c ls ≡ (c ∷ []) ∷ ls
    full_char [] = refl
    full_char (l ∷ ls) = ground (arith, h)
readlines-full (c ∷ d ∷ l) s h =
    ap (add_char c) (readlines-full (d ∷ l) s (ground (arith, h))) ∙ ground (arith, h)

readlines-partial : (l : Text) → is_partial l ≡ true → readlines l ≡ l ∷ []
unfolding readlines
readlines-partial [] h = cc
readlines-partial (c ∷ []) h = refl
readlines-partial (c ∷ d ∷ l) h =
    ap (add_char c) (readlines-partial (d ∷ l) (ground (arith, h))) ∙ ground (arith, h)

-- Lines that end in their newlines, the last one perhaps not, and hold no other newline, are read
-- back as they were written.
pub readlines-writelines : (ls : List Text) → IsLines ls → readlines (writelines ls) ≡ ls
unfolding writelines
readlines-writelines [] h = unfold readlines in refl
readlines-writelines (l ∷ []) h = elim (Bool-cases (is_full l)) [
  | inl full ↦ readlines-full l [] full ∙ unfold readlines in refl
  | inr cut ↦ rw append-nil (readlines-partial l (ground (arith, h, cut)))
]
readlines-writelines (l ∷ m ∷ ls) h =
    readlines-full l (writelines (m ∷ ls)) h.0
    ∙ ap (λ (t : List Text). l ∷ t) (readlines-writelines (m ∷ ls) h.1)

add_char-IsLines : (c : ℕ) (ls : List Text) → IsLines ls → IsLines (add_char c ls)
add_char-IsLines c [] h = ground arith
add_char-IsLines c ([] ∷ []) h = cc
add_char-IsLines c ((x ∷ l) ∷ []) h = ground (arith, h)
add_char-IsLines c ([] ∷ m ∷ ls) h = cc h.0
add_char-IsLines c ((x ∷ l) ∷ m ∷ ls) h = ground (arith, h)

pub readlines-IsLines : (s : Text) → IsLines (readlines s)
unfolding readlines
readlines-IsLines [] = tt
readlines-IsLines (c ∷ s) = add_char-IsLines c (readlines s) (readlines-IsLines s)

pub set-IsLines :
    (ls : List Text) (i : ℕ) (l : Text) → is_full l ≡ true → IsLines ls → IsLines (set ls i l)
set-IsLines [] i l full h = h
set-IsLines (m ∷ []) zero l full h = ground (arith, full)
set-IsLines (m ∷ []) (suc i) l full h = h
set-IsLines (m ∷ n ∷ ls) zero l full h = (full, h.1)
set-IsLines (m ∷ n ∷ ls) (suc zero) l full h = (h.0, set-IsLines (n ∷ ls) zero l full h.1)
set-IsLines (m ∷ n ∷ ls) (suc (suc i)) l full h = (h.0, set-IsLines (n ∷ ls) (suc i) l full h.1)

-- No newline at all.
abbrev pub has_no_newline : Text → Bool
has_no_newline [] = true
has_no_newline (c ∷ l) = not (c == newline) && has_no_newline l

pub append-newline-full : (l : Text) → has_no_newline l ≡ true → is_full (l ++ newline ∷ []) ≡ true
append-newline-full [] h = refl
append-newline-full (c ∷ []) h = ground (arith, h)
append-newline-full (c ∷ d ∷ l) h = ground (arith, h, append-newline-full (d ∷ l))
