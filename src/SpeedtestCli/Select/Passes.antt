-- ===== src/SpeedtestCli/Select/Passes.antt =====
-- What holds of every server that was found holds of the one that is selected.
use qpep.Prelude.{
  ℕ, zero, suc, ◌+◌, ◌≡◌, refl, sym, subst, String, Bool, true, false, Option, none, some, List, [],
  ◌∷◌, ◌++◌, take, if◌then◌else◌,
}
use mathlib.Core.Bool.{Bool-set}
use mathlib.Core.Logic.Or
use mathlib.Core.List.{
  Mem, mem-cons_self, mem-cons_of_mem, eq-or-mem_of_mem-cons, not-mem-nil, Perm,
}
use mathlib.Core.List.Perm
use qpep.Dict.{lookup}
use qpep.SpeedtestCli.{Outcome, returned, raised, key_error, read_failure, Answer, Libraries}
use qpep.SpeedtestCli.Servers.{Server, Found, is_nonempty}
use qpep.SpeedtestCli.Servers.Accepted.{all_servers}
use qpep.SpeedtestCli.Closest.{sorted_keys, servers_at, found_or_fetched, get_closest_servers}
use qpep.SpeedtestCli.Closest.Limit.{in_order, walk_keys_lem}
use qpep.SpeedtestCli.Best.{
  Probe, reads_fail, average, Latencies, put, measure_all, result_at, with_latency, best_of,
  best_measured, get_best_server,
}
use qpep.SpeedtestCli.Select.{best_of_closest}

module _ (lib : Libraries) where
  open lib use {Float, same_float}

  module _ (P : Server lib → Bool) where
    -- All servers of a list pass.
    abbrev pub AllPass : List (Server lib) → Type 0
    AllPass [] = Unit
    AllPass (s ∷ l) = (P s ≡ true) × AllPass l

    abbrev AllMeasuredPass : Latencies lib → Type 0
    AllMeasuredPass [] = Unit
    AllMeasuredPass ((a, s) ∷ l) = (P s ≡ true) × AllMeasuredPass l

    AllPass-Mem : (l : List (Server lib)) (s : Server lib) → AllPass l → Mem s l → P s ≡ true
    AllPass-Mem [] s a m = absurd (not-mem-nil m)
    AllPass-Mem (t ∷ l) s (p, a) m =
        Or.elim (Bool-set (P s) true) (eq-or-mem_of_mem-cons m)
          (λ e. subst (λ x. P x ≡ true) (sym e) p) (AllPass-Mem l s a)

    AllPass-of_Mem : (l : List (Server lib)) → ((s : Server lib) → Mem s l → P s ≡ true) → AllPass l
    AllPass-of_Mem [] k = tt
    AllPass-of_Mem (s ∷ l) k =
        (k s mem-cons_self, AllPass-of_Mem l (λ t m. k t (mem-cons_of_mem s m)))

    pub AllPass-perm : (l m : List (Server lib)) → Perm l m → AllPass m → AllPass l
    AllPass-perm l m p a = AllPass-of_Mem l (λ s i. AllPass-Mem m s a ((Perm.mem_iff p).0 i))

    pub AllPass-append : (l m : List (Server lib)) → AllPass l → AllPass m → AllPass (l ++ m)
    AllPass-append [] m a b = b
    AllPass-append (s ∷ l) m (p, a) b = (p, AllPass-append l m a b)

    AllPass-left : (l m : List (Server lib)) → AllPass (l ++ m) → AllPass l
    AllPass-left [] m a = tt
    AllPass-left (s ∷ l) m (p, a) = (p, AllPass-left l m a)

    AllPass-right : (l m : List (Server lib)) → AllPass (l ++ m) → AllPass m
    AllPass-right [] m a = a
    AllPass-right (s ∷ l) m (p, a) = AllPass-right l m a

    AllPass-take : (n : ℕ) (l : List (Server lib)) → AllPass l → AllPass (take n l)
    AllPass-take zero l a = tt
    AllPass-take (suc n) [] a = tt
    AllPass-take (suc n) (s ∷ l) (p, a) = (p, AllPass-take n l a)

    servers_at-AllPass :
        (d : Float) (found : Found lib)
        → AllPass (all_servers lib found)
        → AllPass (servers_at lib d found)
    unfolding servers_at all_servers
    servers_at-AllPass d [] a = tt
    servers_at-AllPass d ((e, ss) ∷ found) a =
        by_key (same_float e d) (servers_at-AllPass d found (AllPass-right ss _ a))
      where
        by_key :
            (k : Bool)
            → AllPass (servers_at lib d found)
            → AllPass (if k then ss else servers_at lib d found)
        by_key true ih = AllPass-left ss _ a
        by_key false ih = ih

    in_order-AllPass :
        (ds : List Float) (found : Found lib)
        → AllPass (all_servers lib found)
        → AllPass (in_order lib ds found)
    unfolding in_order
    in_order-AllPass [] found a = tt
    in_order-AllPass (d ∷ ds) found a =
        AllPass-append _ _ (servers_at-AllPass d found a) (in_order-AllPass ds found a)

    put-AllPass :
        (avg : Float) (s : Server lib) (results : Latencies lib)
        → P s ≡ true
        → AllMeasuredPass results
        → AllMeasuredPass (put lib avg s results)
    unfolding put
    put-AllPass avg s [] p a = (p, tt)
    put-AllPass avg s ((b, t) ∷ results) p (q, a) =
        by_key (same_float b avg) (put-AllPass avg s results p a)
      where
        by_key :
            (k : Bool)
            → AllMeasuredPass (put lib avg s results)
            → AllMeasuredPass (if k then (b, s) ∷ results else (b, t) ∷ put lib avg s results)
        by_key true ih = (p, a)
        by_key false ih = (q, ih)

    -- What is returned, if anything is, passes.
    abbrev MeasuredPass : Outcome (Latencies lib) → Type 0
    MeasuredPass (raised e) = Unit
    MeasuredPass (returned results) = AllMeasuredPass results

    abbrev pub BestPasses : Outcome (Float × Server lib) → Type 0
    BestPasses (raised e) = Unit
    BestPasses (returned (f, s)) = P s ≡ true

    measure_all-MeasuredPass :
        (probe : ℕ → ℕ → Probe lib) (i : ℕ) (servers : List (Server lib)) (results : Latencies lib)
        → AllPass servers
        → AllMeasuredPass results
        → MeasuredPass (measure_all lib probe i servers results)
    unfolding measure_all
    measure_all-MeasuredPass probe i [] results a b = b
    measure_all-MeasuredPass probe i (s ∷ servers) results (p, a) b =
        by_url (lookup "url" s.attributes)
          (measure_all-MeasuredPass probe (i + 1) servers _ a (put-AllPass _ s results p b))
      where
        by_url :
            (o : Option String)
            → MeasuredPass
                (measure_all lib probe (i + 1) servers (put lib (average lib (probe i)) s results))
            → MeasuredPass (elim o [
              | none ↦ raised key_error
              | some url ↦ elim (reads_fail lib (probe i)) [
                | true ↦ raised read_failure
                | false ↦
                    measure_all lib probe
                      (i + 1)
                      servers
                      (put lib (average lib (probe i)) s results)
              ]
            ])
        by_url none m = tt
        by_url (some url) m = by_reads (reads_fail lib (probe i))
          where
            by_reads :
                (b : Bool)
                → MeasuredPass (elim b [
                  | true ↦ raised read_failure
                  | false ↦
                      measure_all lib probe
                        (i + 1)
                        servers
                        (put lib (average lib (probe i)) s results)
                ])
            by_reads true = tt
            by_reads false = m

    result_at-BestPasses :
        (f g : Float) (results : Latencies lib)
        → AllMeasuredPass results
        → BestPasses (with_latency lib g (result_at lib f results))
    unfolding result_at
    result_at-BestPasses f g [] a = tt
    result_at-BestPasses f g ((b, s) ∷ results) (p, a) =
        by_key (same_float b f) (result_at-BestPasses f g results a)
      where
        by_key :
            (k : Bool)
            → BestPasses (with_latency lib g (result_at lib f results))
            → BestPasses (with_latency lib g (if k then some s else result_at lib f results))
        by_key true ih = p
        by_key false ih = ih

    best_measured-BestPasses :
        (o : Outcome (Latencies lib)) → MeasuredPass o → BestPasses (best_measured lib o)
    best_measured-BestPasses (raised e) m = tt
    best_measured-BestPasses (returned results) m = by_keys (sorted_keys lib results)
      where
        by_keys : (ks : List Float) → BestPasses (best_of lib ks results)
        by_keys [] = tt
        by_keys (f ∷ ks) = result_at-BestPasses f f results m

    -- With servers found, the best of the closest is one of them.
    pub best_of_closest-BestPasses :
        (answer : String → Answer) (threads : String) (ignore_servers : List ℕ)
        (probe : ℕ → ℕ → Probe lib) (found : Found lib)
        → is_nonempty found ≡ true
        → AllPass (all_servers lib found)
        → BestPasses (best_of_closest lib answer threads ignore_servers probe found)
    unfolding best_of_closest get_closest_servers found_or_fetched get_best_server
    best_of_closest-BestPasses answer threads ignore_servers probe [] p a = cc p
    best_of_closest-BestPasses answer threads ignore_servers probe (g ∷ found) p a =
        let l = take 5 (in_order lib (sorted_keys lib (g ∷ found)) (g ∷ found)) in
        subst (λ l. BestPasses (get_best_server lib probe l))
          (sym (walk_keys_lem lib 5 4 (sorted_keys lib (g ∷ found)) (g ∷ found) [] refl))
          (best_measured-BestPasses (measure_all lib probe 0 l []) (
            measure_all-MeasuredPass probe 0 l []
              (AllPass-take 5 _ (in_order-AllPass _ (g ∷ found) a)) tt))
