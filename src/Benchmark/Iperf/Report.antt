-- ===== src/Benchmark/Iperf/Report.antt =====
-- What `IperfBenchmark.run_iperf_test` returns: a dict with four keys.
use qpep.Prelude.{ℕ, ◌≡◌, sym, ap, Bool, true, false, Option, none, some, List, if◌then◌else◌}
use qpep.World.{Result, ok, Services, History}
use qpep.World.Inversion.{perform-eq-ok, >>=-eq-ok as bind-eq-ok}
use qpep.Testbed.Boot.{get_container-eq-ok}
use qpep.Dict.{Dict}
use qpep.Benchmark.{Json, Numbers}
use qpep.Benchmark.Iperf.{
  FileSize, report, or_key_error, final_report, no_transfer, parse_report, checked_report,
  decoded_report, run_iperf_test,
}

ok-injective : {A : Type 0} {a b : A} → ok a ≡ ok b → a ≡ b
ok-injective p = cc

-- The dict has the four keys of a report.
abbrev pub IsReport : {Num : Type 0} → Dict (Json Num) → Type 0
IsReport {Num} r = (a b c d : Json Num) × (r ≡ report a b c d)

module _ {Num : Type 0} where
  or_key_error-eq-ok :
      (o : Option (Json Num)) (k : Json Num → Result (Dict (Json Num))) {r : Dict (Json Num)}
      → or_key_error o k ≡ ok r
      → (v : Json Num) × (k v ≡ ok r)
  unfolding or_key_error
  or_key_error-eq-ok none k e = cc
  or_key_error-eq-ok (some v) k e = (v, e)

  final_report-IsReport : (j : Json Num) {r : Dict (Json Num)} → final_report j ≡ ok r → IsReport r
  unfolding final_report
  final_report-IsReport j e =
      let (a, e₁) = or_key_error-eq-ok _ _ e in
      let (b, e₂) = or_key_error-eq-ok _ _ e₁ in
      let (c, e₃) = or_key_error-eq-ok _ _ e₂ in
      let (d, e₄) = or_key_error-eq-ok _ _ e₃ in (a, b, c, d, sym (ok-injective e₄))

module _ (py : Numbers) (svc : Services) where
  open py use {Num}

  no_transfer-IsReport : {r : Dict (Json Num)} → ok (no_transfer py svc) ≡ ok r → IsReport r
  unfolding no_transfer
  no_transfer-IsReport e = (_, _, _, _, sym (ok-injective e))

  tested-IsReport :
      (broken numbers : Bool) (j : Json Num) {r : Dict (Json Num)}
      → (if broken
          then ok (no_transfer py svc)
          else if numbers
          then final_report j
          else ok (no_transfer py svc))
        ≡ ok r
      → IsReport r
  tested-IsReport true numbers j e = no_transfer-IsReport e
  tested-IsReport false true j e = final_report-IsReport j e
  tested-IsReport false false j e = no_transfer-IsReport e

  -- Whatever the text, a report that is returned has the four keys.
  checked_report-IsReport :
      (json : List ℕ) (o : Option (Json Num)) {r : Dict (Json Num)}
      → checked_report py svc json o ≡ ok r
      → IsReport r
  unfolding checked_report
  checked_report-IsReport json none e = no_transfer-IsReport e
  checked_report-IsReport json (some j) e = tested-IsReport _ _ j e

  decoded_report-IsReport :
      (o : Option (List ℕ)) {r : Dict (Json Num)} → decoded_report py svc o ≡ ok r → IsReport r
  unfolding parse_report
  decoded_report-IsReport none e = cc
  decoded_report-IsReport (some output) e = checked_report-IsReport _ _ e

  pub run_iperf_test-IsReport :
      (size : FileSize) (reset_on_run : Bool) (h : History) {r : Dict (Json Num)} {h' : History}
      → run_iperf_test py svc size reset_on_run h ≡ (ok r, h')
      → IsReport r
  unfolding run_iperf_test
  run_iperf_test-IsReport size reset_on_run h e =
      let e₁ = get_container-eq-ok svc "WS_GW_CONTAINER_NAME" _ h e in
      let (_, _, e₂) = bind-eq-ok _ _ _ e₁ in
      let (_, _, e₃) = perform-eq-ok svc _ _ _ e₂ in
      let e₄ = get_container-eq-ok svc "WS_ST_CONTAINER_NAME" _ _ e₃ in
      let (_, _, e₅) = bind-eq-ok _ _ _ e₄ in
      let (output, _, e₆) = perform-eq-ok svc _ _ _ e₅ in
      decoded_report-IsReport _ (ap (λ (p : Result (Dict (Json Num)) × History). p.0) e₆)
