-- ===== src/Benchmark/Sitespeed/Keeps.antt =====
-- What `SitespeedBenchmark.run` keeps, on every outcome.
use qpep.Prelude.{
  ℕ, zero, suc, ◌≤◌, ◌≡◌, ◌∙◌, refl, sym, ap, String, Bool, true, false, ◌||◌, Option, none, some,
  List, [], ◌∷◌, ◌++◌, append-nil, append_assoc, arith, if◌then◌else◌, Bool-cases, inl, inr,
}
use text.Mathlib.Text.{◌==◌ as str_eq}
use text.Mathlib.TextEquality.{eq_iff}
use qpep.World.{Services, ⊤, M, History}
use qpep.Dict.{Dict, lookup, lookup-insert}
use qpep.Benchmark.{Numbers}
use qpep.Benchmark.Relates.{IsPreorder, Relates, Relates-pure, Relates-bind, Relates-after}
use qpep.Benchmark.Sitespeed.{
  LoadTime, Sitespeed, Loads, values_with, add_value, add_errors, store_value, store_matches,
  measure_host, measure_hosts, deploy_if, run_rounds, run,
}

-- The measurements under a name.
abbrev pub values_of : {Num : Type 0} → Option (List Num) → List Num
values_of none = []
values_of (some values) = values

abbrev pub is_host : String → List String → Bool
is_host host [] = false
is_host host (h ∷ hs) = str_eq h host || is_host host hs

-- Measurements are only added behind those that were there, under names on the list alone, and the
-- count of errors does not fall.
pub record IsLater {Num : Type 0} (hosts : List String) (l l' : Loads Num) : Type 0 where
  pub errors_grow : l.errors ≤ l'.errors
  pub more : String → List Num
  pub behind :
      (host : String)
      → values_of (lookup host l'.results) ≡ values_of (lookup host l.results) ++ more host
  pub elsewhere : (host : String) → is_host host hosts ≡ false → more host ≡ []

-- What is added under a name, by whether it is the name that was meant.
abbrev pub added : {Num : Type 0} → Bool → Num → List Num
added true v = v ∷ []
added false v = []

module _ {Num : Type 0} (hosts : List String) where
  IsLater-reflexive : (l : Loads Num) → IsLater hosts l l
  IsLater-reflexive l = record {
    errors_grow = omega arith;
    more = λ host. [];
    behind = λ host. sym (append-nil _);
    elsewhere = λ host h. refl;
  }

  IsLater-transitive :
      (l m n : Loads Num) → IsLater hosts l m → IsLater hosts m n → IsLater hosts l n
  IsLater-transitive l m n x y = record {
    errors_grow = omega (arith, x.errors_grow, y.errors_grow);
    more = λ host. x.more host ++ y.more host;
    behind = λ host.
        y.behind host
        ∙ ap (λ v. v ++ y.more host) (x.behind host)
        ∙ append_assoc (values_of (lookup host l.results)) (x.more host) (y.more host);
    elsewhere = λ host h. ap (λ v. v ++ y.more host) (x.elsewhere host h) ∙ y.elsewhere host h;
  }

  IsLater-IsPreorder : IsPreorder (IsLater {Num = Num} hosts)
  IsLater-IsPreorder = record { reflexive = IsLater-reflexive; transitive = IsLater-transitive }

module _ {Num : Type 0} where
  behind_if :
      (hit : Bool) (v : Num) (host key : String) (results : Dict (List Num))
      → str_eq host key ≡ hit
      → values_of (if hit then some (values_with (lookup host results) v) else lookup key results)
        ≡ values_of (lookup key results) ++ added hit v
  behind_if true v host key results same =
      let e : lookup key results ≡ lookup host results =
        ap (λ k. lookup k results) (sym ((eq_iff host key).0 same)) in
      values_with-append (lookup host results) ∙ ap (λ o. values_of o ++ v ∷ []) (sym e)
    where
      values_with-append : (o : Option (List Num)) → values_with o v ≡ values_of o ++ v ∷ []
      values_with-append none = refl
      values_with-append (some values) = refl
  behind_if false v host key results other = sym (append-nil _)

  add_value-IsLater :
      (hosts : List String) (host : String) (v : Num) (l : Loads Num)
      → is_host host hosts ≡ true
      → IsLater hosts l (add_value host v l)
  unfolding add_value
  add_value-IsLater hosts host v l listed = record {
    errors_grow = omega arith;
    more = λ key. added (str_eq host key) v;
    behind = λ key.
        ap values_of (lookup-insert host key (values_with (lookup host l.results) v) l.results)
        ∙ behind_if (str_eq host key) v host key l.results refl;
    elsewhere = λ key h. elim (Bool-cases (str_eq host key)) [
      | inl same ↦ cc (ap (λ k. is_host k hosts) ((eq_iff host key).0 same), listed, h)
      | inr other ↦ rw other refl
    ];
  }

module _ (py : Numbers) (svc : Services) (hosts : List String) where
  open py use {Num}

  later : IsPreorder (IsLater {Num = Num} hosts)
  later = IsLater-IsPreorder hosts

  store_value-IsLater :
      (host : String) (o : Option Num)
      → is_host host hosts ≡ true
      → Relates (IsLater hosts) (store_value py svc host o)
  store_value-IsLater host none listed l h = IsLater-reflexive hosts l
  store_value-IsLater host (some v) listed l h = add_value-IsLater hosts host v l listed

  store_matches-IsLater :
      (host : String) (ms : List LoadTime)
      → is_host host hosts ≡ true
      → Relates (IsLater hosts) (store_matches py svc host ms)
  unfolding store_matches
  store_matches-IsLater host [] listed = Relates-pure (IsLater hosts) later tt
  store_matches-IsLater host (m ∷ ms) listed =
      Relates-bind (IsLater hosts) later _ _ (store_value-IsLater host _ listed)
        λ _. store_matches-IsLater host ms listed

  add_errors-IsLater : (n : ℕ) → Relates (IsLater {Num = Num} hosts) (add_errors n)
  add_errors-IsLater n l h = record {
    errors_grow = omega arith;
    more = λ host. [];
    behind = λ host. sym (append-nil _);
    elsewhere = λ host _. refl;
  }

  measure_host-IsLater :
      (sub_iterations : ℕ) (c : Option String) (host : String)
      → is_host host hosts ≡ true
      → Relates (IsLater hosts) (measure_host py svc sub_iterations c host)
  unfolding measure_host
  measure_host-IsLater sub_iterations c host listed =
      Relates-after (IsLater hosts) later _ _ λ result.
        Relates-bind (IsLater hosts) later _ _ (store_matches-IsLater host _ listed)
          λ _. add_errors-IsLater _

  measure_hosts-IsLater :
      (sub_iterations : ℕ) (c : Option String) (some_hosts : List String)
      → ((host : String) → is_host host some_hosts ≡ true → is_host host hosts ≡ true)
      → Relates (IsLater hosts) (measure_hosts py svc sub_iterations c some_hosts)
  unfolding measure_hosts
  measure_hosts-IsLater sub_iterations c [] inside = Relates-pure (IsLater hosts) later tt
  measure_hosts-IsLater sub_iterations c (host ∷ rest) inside =
      Relates-bind (IsLater hosts) later _ _
        (measure_host-IsLater sub_iterations c host
          (inside host (ground (arith, eq_iff host host))))
        λ _.
          measure_hosts-IsLater sub_iterations c rest λ k listed. inside k (ground (arith, listed))

  deploy_if-IsLater :
      (n : ℕ) (scenario : Option (M ⊤))
      → Relates (IsLater {Num = Num} hosts) (deploy_if py svc n scenario)
  deploy_if-IsLater zero scenario l h = IsLater-reflexive hosts l
  deploy_if-IsLater (suc n) none l h = IsLater-reflexive hosts l
  deploy_if-IsLater (suc n) (some deploy) l h = IsLater-reflexive hosts l

module _ (py : Numbers) (svc : Services) (b : Sitespeed) where
  open py use {Num}

  run_rounds-IsLater : (n : ℕ) → Relates (IsLater b.hosts) (run_rounds py svc b n)
  unfolding run_rounds
  run_rounds-IsLater zero = Relates-pure (IsLater b.hosts) (later py svc b.hosts) tt
  run_rounds-IsLater (suc n) =
      let order = later py svc b.hosts in
      Relates-after (IsLater b.hosts) order _ _ λ c.
        Relates-bind (IsLater b.hosts) order _ _
          (measure_hosts-IsLater py svc b.hosts b.sub_iterations c b.hosts (λ _ h. h))
          λ _.
            Relates-bind (IsLater b.hosts) order _ _ (deploy_if-IsLater py svc b.hosts n b.scenario)
              λ _. run_rounds-IsLater n

  -- However `run` ends, the measurements that were there stand in their places, new ones stand
  -- behind them and under hosts of the list alone, and the count of errors has not fallen.
  pub run-IsLater : (l : Loads Num) (h : History) → IsLater b.hosts l (run py svc b l h).1
  unfolding run
  run-IsLater l h = run_rounds-IsLater b.iterations l h
