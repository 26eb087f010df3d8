-- ===== src/Configurator.antt =====
-- opensand-testbed/configurator.py. A file is the list of its characters' codes; a directory is a
-- function from paths. `change_line` reads all lines, replaces one, and writes all back.
-- Python's text mode also turns "\r\n" into "\n" when it reads: the files are taken to have
-- been read so already.

pub mod Lines
pub mod Line
pub mod Changes
mod Examples
use qpep.Prelude.{
  ℕ, zero, suc, ◌+◌, ◌-◌, String, Bool, true, false, Option, none, some, List, [], ◌∷◌, ◌++◌, set,
  length, ltb, ◌==◌, if◌then◌else◌,
}
use text.Mathlib.Text.{◌==◌ as str_eq}
use qpep.Prelude.Text.{codes, join, str}
use qpep.World.{Result, ok, err, index_error, name_error, file_error, spinning, ⊤}

abbrev pub Text : Type 0
Text = List ℕ

-- The contents by path; `none` where there is no file.
abbrev pub Directory : Type 0
Directory = String → Option Text

abbrev pub newline : ℕ
newline = 10

-- The first character in front of the lines: it is a line of its own if it ends one.
abbrev pub add_char : ℕ → List Text → List Text
add_char c [] = (c ∷ []) ∷ []
add_char c (l ∷ ls) = if c == newline then (newline ∷ []) ∷ l ∷ ls else (c ∷ l) ∷ ls

-- `file.readlines()`: each line with its newline, which the last one may lack.
unfoldable pub readlines : Text → List Text
readlines [] = []
readlines (c ∷ s) = add_char c (readlines s)

-- `file.writelines(lines)`
unfoldable pub writelines : List Text → Text
writelines [] = []
writelines (l ∷ ls) = l ++ writelines ls

abbrev pub update : Directory → String → Text → Directory
update d path content other = if str_eq path other then some content else d other

-- A call that changes files: what was written before an exception stays.
abbrev pub Files : Type 0 → Type 0
Files A = Directory → Result A × Directory

-- `lines[line_number - 1] = text`: Python counts index -1 from the end.
abbrev pub assign_line : List Text → ℕ → Text → Option (List Text)
assign_line lines zero text =
    if ltb 0 (length lines) then some (set lines (length lines - 1) text) else none
assign_line lines (suc n) text = if ltb n (length lines) then some (set lines n text) else none

pub change_line : String → ℕ → Text → Files ⊤
change_line filename line_number line_text d = elim (d filename) [
  | none ↦ (err file_error, d)
  | some content ↦ elim (assign_line (readlines content) line_number (line_text ++ newline ∷ [])) [
    | none ↦ (err index_error, d)
    | some lines ↦ (ok tt, update d filename (writelines lines))
  ]
]

-- `replace_string`: its body names `text_to_search` and `replacement_text`, which are not bound, so
-- the first line raises a NameError. By then `FileInput(inplace=True)` has opened the file anew for
-- writing, and on the way out it removes the backup: what had been printed is what is left.
pub replace_string : Text → Text → String → Files ⊤
replace_string original_string replacement filename d = elim (d filename) [
  | none ↦ (err file_error, d)
  | some content ↦ elim (readlines content) [
    | [] ↦ (ok tt, update d filename [])
    | line ∷ rest ↦ (err name_error, update d filename [])
  ]
]

infixl 5 ◌>>◌
abbrev pub ◌>>◌ : Files ⊤ → Files ⊤ → Files ⊤
◌>>◌ m k d =
    let (r, d') = m d in elim r [ ok _ ↦ k d' | err e ↦ (err e, d') | spinning ↦ (spinning, d') ]

-- One call of `change_line`.
pub record Edit : Type 0 where
  pub filename : String
  pub line_number : ℕ
  pub line_text : String

abbrev pub edit : String → ℕ → List String → Edit
edit filename line_number parts = record {
  filename = filename;
  line_number = line_number;
  line_text = join parts;
}

-- A function that calls `change_line` for each of these, in order; an exception ends it.
pub change_lines : List Edit → Files ⊤
change_lines [] d = (ok tt, d)
change_lines (e ∷ es) d =
    (change_line e.filename e.line_number (codes e.line_text) >> change_lines es) d

-- What the configuration functions write, by `os.getenv`.
module _ (getenv : String → Option String) where
  gateway_edits : List Edit
  gateway_edits =
      edit "gateway/config/gw.conf" 22
        ("emu_ipv4 = " ∷ str (getenv "EMU_NETWORK_HEAD") ∷ ".0.3/24" ∷ [])
      ∷ edit "gateway/config/gw.conf" 25
          ("lan_ipv4 = " ∷ str (getenv "GW_NETWORK_HEAD") ∷ ".0.3/24" ∷ [])
      ∷ edit "gateway/config/gw.conf" 29
          ("lan_ipv6 = " ∷ str (getenv "GW_IP6_HEAD") ∷ ":6602:102::1/64" ∷ [])
      ∷ edit "gateway/config/launch_pepsal.sh" 5 (
          "/sbin/iptables -A POSTROUTING -t nat -s "
          ∷ str (getenv "ST_NETWORK_HEAD")
          ∷ ".0.0/24 -o eth0 -j MASQUERADE --random"
          ∷ [])
      ∷ []

  -- The edits of a workstation's VPN file and browser script, by its folder.
  workstation_edits : String → String → List Edit
  workstation_edits ovpn_file firefox_file =
      edit ovpn_file 6 ("remote " ∷ str (getenv "GW_NETWORK_HEAD") ∷ ".0.10 1194 udp" ∷ [])
      ∷ edit firefox_file 4
          ("ip route add default via " ∷ str (getenv "ST_NETWORK_HEAD") ∷ ".0.4" ∷ [])
      ∷ edit firefox_file 5
          ("ip route add 192.168.0.5 via " ∷ str (getenv "GUI_NETWORK_HEAD") ∷ ".0.1 dev eth1" ∷ [])
      ∷ []

  proxy_st_edits : List Edit
  proxy_st_edits = workstation_edits "proxy-st/client.ovpn" "proxy-st/launch_firefox.sh"

  satellite_edits : List Edit
  satellite_edits =
      edit "satellite/config/sat.conf" 17
        ("emu_ipv4 = " ∷ str (getenv "EMU_NETWORK_HEAD") ∷ ".0.2/24" ∷ [])
      ∷ []

  terminal_edits : List Edit
  terminal_edits =
      edit "terminal/config/term.conf" 18
        ("emu_ipv4 = " ∷ str (getenv "EMU_NETWORK_HEAD") ∷ ".0.4/24" ∷ [])
      ∷ edit "terminal/config/term.conf" 20
          ("lan_ipv4 = " ∷ str (getenv "ST_NETWORK_HEAD") ∷ ".0.4/24" ∷ [])
      ∷ edit "terminal/config/term.conf" 21
          ("lan_ipv6 = " ∷ str (getenv "ST_IP6_HEAD") ∷ ":6602:102::1/64" ∷ [])
      ∷ []

  ws_ovpn_edits : List Edit
  ws_ovpn_edits =
      edit "ws-ovpn/ovpn_env.sh" 24
        ("declare -x OVPN_SERVER_URL=udp://" ∷ str (getenv "GW_NETWORK_HEAD") ∷ ".0.10" ∷ [])
      ∷ []

  ws_st_edits : List Edit
  ws_st_edits = workstation_edits "ws-st/client.ovpn" "ws-st/launch_firefox.sh"

  ws_gw_edits : List Edit
  ws_gw_edits =
      edit "ws-gw/Dockerfile" 15 (
        "ENTRYPOINT ip route del default && ip route add default via "
        ∷ str (getenv "GW_NETWORK_HEAD")
        ∷ ".0.3 && bash && exec tail -f /dev/null"
        ∷ [])
      ∷ []

  -- The edits of a run, in order.
  pub main_edits : List Edit
  unfolding gateway_edits proxy_st_edits satellite_edits terminal_edits ws_ovpn_edits ws_st_edits
      ws_gw_edits workstation_edits
  main_edits =
      gateway_edits ++ proxy_st_edits ++ satellite_edits ++ terminal_edits ++ ws_ovpn_edits
      ++ ws_st_edits ++ ws_gw_edits

  -- `if __name__ == '__main__'`
  pub main : Files ⊤
  main =
      change_lines gateway_edits
      >> change_lines proxy_st_edits
      >> change_lines satellite_edits
      >> change_lines terminal_edits
      >> change_lines ws_ovpn_edits
      >> change_lines ws_st_edits
      >> change_lines ws_gw_edits
