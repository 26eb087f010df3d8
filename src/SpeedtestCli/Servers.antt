-- ===== src/SpeedtestCli/Servers.antt =====
-- `Speedtest.get_servers` of opensand-testbed/proxy-st/speedtest.py.
pub mod Wanted
pub mod Accepted
pub mod Chosen
pub mod Fetched
mod Examples
use qpep.Prelude.{
  ℕ, zero, suc, String, Bool, true, false, ◌&&◌, ◌||◌, not, Option, none, some, List, [], ◌∷◌, ◌++◌,
  if◌then◌else◌, ◌==◌,
}
use qpep.Prelude.Text.{join}
use qpep.World.{⊤}
use qpep.Dict.{Dict, lookup}
use qpep.SpeedtestCli.{
  Failure, invalid_server_id_type, servers_error, no_matched_servers, type_error, value_error,
  Outcome, returned, raised, Read, chunk, broken, Answer, refused, response, Libraries,
}

-- `if l`, of a list
abbrev pub is_nonempty : {A : Type 0} → List A → Bool
is_nonempty [] = false
is_nonempty (x ∷ l) = true

-- `n in l`
abbrev pub is_in : ℕ → List ℕ → Bool
is_in n [] = false
is_in n (m ∷ l) = m == n || is_in n l

-- `while 1: …`, up to the first empty read; a stream that is at its end reads as empty.
unfoldable pub read_chunks : List Read → Option (List ℕ)
read_chunks [] = some []
read_chunks (broken ∷ reads) = none
read_chunks (chunk [] ∷ reads) = some []
read_chunks (chunk (b ∷ bytes) ∷ reads) = elim (read_chunks reads) [
  | none ↦ none
  | some rest ↦ some ((b ∷ bytes) ++ rest)
]

-- The text of a list of servers, or `none` for a ServersRetrievalError.
unfoldable pub servers_text : Answer → Option (List ℕ)
servers_text refused = none
servers_text (response code reads) = elim (read_chunks reads) [
  | none ↦ none
  | some text ↦ if code == 200 then some text else none
]

abbrev pub urls : List String
urls =
    "://www.speedtest.net/speedtest-servers-static.php"
    ∷ "http://c.speedtest.net/speedtest-servers-static.php"
    ∷ "://www.speedtest.net/speedtest-servers.php" ∷ "http://c.speedtest.net/speedtest-servers.php"
    ∷ []

-- `'%s?threads=%s' % (url, self.config['threads']['download'])`
abbrev pub request_url : String → String → String
request_url threads url = join (url ∷ "?threads=" ∷ threads ∷ [])

module _ (lib : Libraries) where
  open lib use {Float, same_float, int_of, server_elements, distance_of}

  -- The attributes of a server, with `d`.
  pub record Server : Type 0 where
    pub attributes : Dict String
    pub d : Float

  -- `self.servers`: a dict by the distance.
  abbrev pub Found : Type 0
  Found = List (Float × List Server)

  -- `server_list[i] = int(s)` for all of a list
  unfoldable pub to_ints : List String → Option (List ℕ)
  to_ints [] = some []
  to_ints (s ∷ l) =
      let rest = to_ints l in
      elim (int_of s) [ none ↦ none | some n ↦ elim rest [ none ↦ none | some ns ↦ some (n ∷ ns) ] ]

  -- `int(attrib.get('id'))`
  abbrev pub int_or_raise : Option String → Outcome ℕ
  int_or_raise none = raised type_error
  int_or_raise (some s) = elim (int_of s) [ none ↦ raised value_error | some n ↦ returned n ]

  abbrev pub id_of : Dict String → Outcome ℕ
  id_of attrib = int_or_raise (lookup "id" attrib)

  -- The two tests before a `continue`.
  unfoldable pub is_skipped : List ℕ → List ℕ → List ℕ → ℕ → Bool
  is_skipped servers exclude ignore_servers n =
      (is_nonempty servers && not (is_in n servers)) || (is_in n ignore_servers || is_in n exclude)

  -- `try: self.servers[d].append(attrib)`, `except KeyError: self.servers[d] = [attrib]`
  unfoldable pub add_under : Float → Server → Found → Found
  add_under d s [] = (d, s ∷ []) ∷ []
  add_under d s ((e, ss) ∷ found) =
      let rest = add_under d s found in
      if same_float e d then (e, ss ++ s ∷ []) ∷ found else (e, ss) ∷ rest

  -- `except Exception: continue`, and what follows it
  abbrev pub add_located : Option Float → Dict String → Found → Found
  add_located none attrib found = found
  add_located (some d) attrib found = add_under d (record { attributes = attrib; d = d }) found

  module _ (servers exclude ignore_servers : List ℕ) where
    -- What one element adds, by its id.
    unfoldable pub add_element : ℕ → Dict String → Found → Found
    add_element n attrib found =
        if is_skipped servers exclude ignore_servers n
        then found
        else add_located (distance_of (lookup "lat" attrib) (lookup "lon" attrib)) attrib found

    -- `for server in elements`
    unfoldable pub add_elements : List (Dict String) → Found → Outcome ⊤ × Found
    add_elements [] found = (returned tt, found)
    add_elements (attrib ∷ elements) found = elim (id_of attrib) [
      | raised e ↦ (raised e, found)
      | returned n ↦ add_elements elements (add_element n attrib found)
    ]

    -- The body of the outer `try`, after the text is there: a malformed one is no
    -- ServersRetrievalError.
    unfoldable pub add_text : Option (List (Dict String)) → Found → Outcome ⊤ × Found
    add_text none found = (raised servers_error, found)
    add_text (some elements) found = add_elements elements found

    -- `for url in urls`
    unfoldable pub try_urls : (String → Answer) → String → List String → Found → Outcome ⊤ × Found
    try_urls answer threads [] found = (returned tt, found)
    try_urls answer threads (url ∷ rest) found =
        elim (servers_text (answer (request_url threads url))) [
          | none ↦ try_urls answer threads rest found
          | some text ↦ add_text (server_elements text) found
        ]

  -- `if (servers or exclude) and not self.servers`
  abbrev pub check_matched : Bool → Outcome ⊤ × Found → Outcome ⊤ × Found
  check_matched asked (raised e, found) = (raised e, found)
  check_matched asked (returned _, found) =
      if asked && not (is_nonempty found)
      then (raised no_matched_servers, found)
      else (returned tt, found)

  abbrev pub with_ids :
      Option (List ℕ) → Option (List ℕ) → (List ℕ → List ℕ → Outcome ⊤ × Found) → Outcome ⊤ × Found
  with_ids (some ids) (some excluded) k = k ids excluded
  with_ids _ _ k = (raised invalid_server_id_type, [])

  -- `get_servers`, with the threads and the ids to ignore of the configuration: its outcome, and
  -- `self.servers` after it.
  unfoldable pub get_servers :
      (String → Answer) → String → List ℕ → List String → List String → Outcome ⊤ × Found
  get_servers answer threads ignore_servers servers exclude =
      with_ids (to_ints servers) (to_ints exclude) λ ids excluded.
        check_matched (is_nonempty servers || is_nonempty exclude)
          (try_urls ids excluded ignore_servers answer threads urls [])
