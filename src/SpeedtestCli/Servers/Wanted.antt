-- ===== src/SpeedtestCli/Servers/Wanted.antt =====
-- What `get_servers` of speedtest.py is asked for, in words of its own: which ids are wanted, which
-- text an answer brings, and which servers a list of elements stands for.
use qpep.Prelude.{
  ℕ, ◌≡◌, ◌≢◌, ◌⊎◌, refl, sym, ap, ◌∙◌, subst, inl, inr, String, true, false, none, some, List, [],
  ◌∷◌, ◌++◌, ◌==◌, ==_iff, arith, Bool-cases, Option-cases,
}
use qpep.Dict.{Dict, lookup}
use qpep.SpeedtestCli.{returned, Read, chunk, broken, Answer, refused, response, Libraries}
use qpep.SpeedtestCli.Servers.{
  Server, is_in, read_chunks, servers_text, request_url, is_skipped, id_of,
}

-- The number stands in the list.
abbrev pub IsIn : ℕ → List ℕ → Type 0
IsIn n [] = ⊥
IsIn n (m ∷ l) = (m ≡ n) ⊎ IsIn n l

-- Asked for, where any id was, and neither ignored nor excluded.
abbrev pub IsWanted : List ℕ → List ℕ → List ℕ → ℕ → Type 0
IsWanted servers exclude ignore_servers n =
    ((servers ≡ []) ⊎ IsIn n servers) × (¬ IsIn n ignore_servers) × (¬ IsIn n exclude)

is_in-IsIn : (n : ℕ) (l : List ℕ) → is_in n l ≡ true → IsIn n l
is_in-IsIn n [] e = cc e
is_in-IsIn n (m ∷ l) e = elim (Bool-cases (m == n)) [
  | inl same ↦ inl ((==_iff m n).0 same)
  | inr other ↦ inr (is_in-IsIn n l (ground (arith, e, other)))
]

IsIn-is_in : (n : ℕ) (l : List ℕ) → IsIn n l → is_in n l ≡ true
IsIn-is_in n [] h = absurd h
IsIn-is_in n (m ∷ l) (inl same) = ground (arith, (==_iff m n).1 same)
IsIn-is_in n (m ∷ l) (inr h) = ground (arith, IsIn-is_in n l h)

not-IsIn : (n : ℕ) (l : List ℕ) → is_in n l ≡ false → ¬ IsIn n l
not-IsIn n l e h = cc (e, IsIn-is_in n l h)

is_in-no : (n : ℕ) (l : List ℕ) → ¬ IsIn n l → is_in n l ≡ false
is_in-no n l h = elim (Bool-cases (is_in n l)) [
  | inl yes_in ↦ absurd (h (is_in-IsIn n l yes_in))
  | inr no_in ↦ no_in
]

module _ (lib : Libraries) where
  open lib use {Float, int_of, distance_of}

  pub is_skipped-IsWanted :
      (servers exclude ignore_servers : List ℕ) (n : ℕ)
      → is_skipped lib servers exclude ignore_servers n ≡ false
      → IsWanted servers exclude ignore_servers n
  unfolding is_skipped
  is_skipped-IsWanted [] exclude ignore_servers n e = (
    inl refl,
    not-IsIn n ignore_servers (ground (arith, e)),
    not-IsIn n exclude (ground (arith, e)),
  )
  is_skipped-IsWanted (m ∷ servers) exclude ignore_servers n e = (
    inr (is_in-IsIn n (m ∷ servers) (ground (arith, e))),
    not-IsIn n ignore_servers (ground (arith, e)),
    not-IsIn n exclude (ground (arith, e)),
  )

  pub is_skipped-not_IsWanted :
      (servers exclude ignore_servers : List ℕ) (n : ℕ)
      → is_skipped lib servers exclude ignore_servers n ≡ true
      → ¬ IsWanted servers exclude ignore_servers n
  unfolding is_skipped
  is_skipped-not_IsWanted [] exclude ignore_servers n e (_, ignored, excluded) =
      ground (arith, e, is_in-no n ignore_servers ignored, is_in-no n exclude excluded)
  is_skipped-not_IsWanted (m ∷ servers) exclude ignore_servers n e (inl nothing, _, _) = cc nothing
  is_skipped-not_IsWanted (m ∷ servers) exclude ignore_servers n e (inr asked, ignored, excluded) =
      ground (
        arith,
        e,
        IsIn-is_in n (m ∷ servers) asked,
        is_in-no n ignore_servers ignored,
        is_in-no n exclude excluded,
      )

-- What the reads bring up to the first empty one, of which none is broken.
pub data IsRead : List Read → List ℕ → Type 0 where
  at_end : IsRead [] []
  stop : (reads : List Read) → IsRead (chunk [] ∷ reads) []
  more :
      {bytes rest : List ℕ} {reads : List Read}
      → bytes ≢ []
      → IsRead reads rest
      → IsRead (chunk bytes ∷ reads) (bytes ++ rest)

-- The text that an answer brings.
pub data IsText : Answer → List ℕ → Type 0 where
  success :
      {reads : List Read} {text : List ℕ} → IsRead reads text → IsText (response 200 reads) text

some-injective : {a b : List ℕ} → some a ≡ some b → a ≡ b
some-injective p = cc

read_chunks-IsRead :
    (reads : List Read) {text : List ℕ} → read_chunks reads ≡ some text → IsRead reads text
unfolding read_chunks
read_chunks-IsRead [] e = subst (IsRead []) (some-injective e) at_end
read_chunks-IsRead (broken ∷ reads) e = cc e
read_chunks-IsRead (chunk [] ∷ reads) e =
    subst (IsRead (chunk [] ∷ reads)) (some-injective e) (stop reads)
read_chunks-IsRead (chunk (b ∷ bytes) ∷ reads) e = elim (Option-cases (read_chunks reads)) [
  | inl broke ↦ ground (arith, e, broke)
  | inr (rest, came) ↦
      subst (IsRead (chunk (b ∷ bytes) ∷ reads)) (some-injective (rw came at e))
        (more (λ p. cc p) (read_chunks-IsRead reads came))
]

IsRead-read_chunks :
    {reads : List Read} {text : List ℕ} → IsRead reads text → read_chunks reads ≡ some text
unfolding read_chunks
IsRead-read_chunks at_end = refl
IsRead-read_chunks (stop reads) = refl
IsRead-read_chunks (more {bytes = []} h r) = absurd (h refl)
IsRead-read_chunks (more {bytes = b ∷ bytes} h r) = rw (IsRead-read_chunks r) refl

pub servers_text-IsText :
    (answer : Answer) {text : List ℕ} → servers_text answer ≡ some text → IsText answer text
unfolding servers_text
servers_text-IsText refused e = cc e
servers_text-IsText (response code reads) {text} e = elim (Option-cases (read_chunks reads)) [
  | inl broke ↦ ground (arith, e, broke)
  | inr (read, came) ↦ elim (Bool-cases (code == 200)) [
    | inl found ↦
        let same : read ≡ text = ground (arith, e, came, found) in
        subst (λ c. IsText (response c reads) text) (sym ((==_iff code 200).0 found))
          (success (read_chunks-IsRead reads (came ∙ ap some same)))
    | inr other ↦ ground (arith, e, came, other)
  ]
]

IsText-servers_text :
    {answer : Answer} {text : List ℕ} → IsText answer text → servers_text answer ≡ some text
unfolding servers_text
IsText-servers_text (success r) = rw (servers_text, IsRead-read_chunks r) refl

pub servers_text-not_IsText :
    (answer : Answer) → servers_text answer ≡ none → (text : List ℕ) → ¬ IsText answer text
servers_text-not_IsText answer e text t = cc (e, IsText-servers_text t)

-- The first of the urls whose answer brings a text.
pub data IsFirstText (answer : String → Answer) (threads : String)
    : List String → List ℕ → Type 0 where
  this_url :
      (url : String) (urls : List String) {text : List ℕ}
      → IsText (answer (request_url threads url)) text
      → IsFirstText answer threads (url ∷ urls) text
  next_url :
      (url : String) {urls : List String} {text : List ℕ}
      → ((other : List ℕ) → ¬ IsText (answer (request_url threads url)) other)
      → IsFirstText answer threads urls text
      → IsFirstText answer threads (url ∷ urls) text

-- None of the urls brings one.
abbrev pub NoText : (String → Answer) → String → List String → Type 0
NoText answer threads [] = Unit
NoText answer threads (url ∷ urls) =
    ((text : List ℕ) → ¬ IsText (answer (request_url threads url)) text)
    × NoText answer threads urls

module _ (lib : Libraries) where
  open lib use {int_of, distance_of}

  -- The attribute `id` is this number.
  abbrev pub HasId : ℕ → Dict String → Type 0
  HasId n attrib = (text : String) × (lookup "id" attrib ≡ some text) × (int_of text ≡ some n)

  -- The servers that elements with ids stand for: those that are wanted and have a place, each
  -- with its attributes and its distance.
  pub data IsAccepted (servers exclude ignore_servers : List ℕ)
      : List (Dict String) → List (Server lib) → Type 0 where
    no_elements : IsAccepted servers exclude ignore_servers [] []
    unwanted :
        (n : ℕ) (attrib : Dict String) {elements : List (Dict String)} {l : List (Server lib)}
        → HasId n attrib
        → ¬ IsWanted servers exclude ignore_servers n
        → IsAccepted servers exclude ignore_servers elements l
        → IsAccepted servers exclude ignore_servers (attrib ∷ elements) l
    without_place :
        (n : ℕ) (attrib : Dict String) {elements : List (Dict String)} {l : List (Server lib)}
        → HasId n attrib
        → distance_of (lookup "lat" attrib) (lookup "lon" attrib) ≡ none
        → IsAccepted servers exclude ignore_servers elements l
        → IsAccepted servers exclude ignore_servers (attrib ∷ elements) l
    taken :
        (n : ℕ) (attrib : Dict String) (d : lib.Float) {elements : List (Dict String)}
        {l : List (Server lib)}
        → HasId n attrib
        → IsWanted servers exclude ignore_servers n
        → distance_of (lookup "lat" attrib) (lookup "lon" attrib) ≡ some d
        → IsAccepted servers exclude ignore_servers elements l
        → IsAccepted servers exclude ignore_servers
            (attrib ∷ elements)
            (record { attributes = attrib; d = d } ∷ l)

  pub id_of-HasId : (attrib : Dict String) {n : ℕ} → id_of lib attrib ≡ returned n → HasId n attrib
  id_of-HasId attrib e = elim (Option-cases (lookup "id" attrib)) [
    | inl absent ↦ ground (arith, e, absent)
    | inr (text, there) ↦ elim (Option-cases (int_of text)) [
      | inl bad ↦ ground (arith, e, there, bad)
      | inr (m, good) ↦ (text, there, ground (arith, e, there, good))
    ]
  ]
