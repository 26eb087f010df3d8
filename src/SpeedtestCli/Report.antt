-- ===== src/SpeedtestCli/Report.antt =====
-- `SpeedtestResults.dict` of opensand-testbed/proxy-st/speedtest.py, which `--json` prints.
mod Examples
use qpep.Prelude.{ℕ, ◌≡◌, refl, String, false, Option, none, some, List, [], ◌∷◌}
use qpep.Prelude.Text.{codes, join, str_of_int}
use qpep.World.{Result, ok, container_get, exec_run, Services, History}
use qpep.Dict.{Dict}
use qpep.Benchmark.{Json, null, num, string, obj, Fields, end, field, Numbers}
use qpep.Benchmark.Iperf.{rstrip_newline, index, get_field}

pub record SpeedtestResults (Num : Type 0) : Type 0 where
  pub download : Num
  pub upload : Num
  pub ping : Num
  pub server : Fields Num
  pub client : Fields Num
  pub share : Option String
  pub timestamp : String
  pub bytes_received : Num
  pub bytes_sent : Num

module _ {Num : Type 0} where
  -- None, or the link that `share` made
  abbrev pub share_json : Option String → Json Num
  share_json none = null
  share_json (some link) = string link

  -- `dict`
  pub to_dict : SpeedtestResults Num → Json Num
  to_dict r = obj (
      field "download" (num r.download) (
        field "upload" (num r.upload) (
          field "ping" (num r.ping) (
            field "server" (obj r.server) (
              field "timestamp" (string r.timestamp) (
                field "bytes_sent" (num r.bytes_sent) (
                  field "bytes_received" (num r.bytes_received)
                    (field "share" (share_json r.share) (field "client" (obj r.client) end)))))))))
