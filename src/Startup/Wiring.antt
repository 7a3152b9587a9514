-- ===== src/Startup/Wiring.antt =====
-- Which controllers run once the operator has started.
use pre_scaling_operator.Common.{
  Text, bytes, Bool, true, false, List, [], ◌∷◌, ◌++◌, if◌then◌else◌, Result, ok, err, ◌≡◌, ◌↔◌,
  ◌∙◌, ap, refl, arith,
}
use pre_scaling_operator.Validations.Discovery.{openshift_cluster_check, redis_cluster_installed}
use pre_scaling_operator.Controllers.Setup.{
  Registration, cluster_scaling_state_definition_setup, cluster_scaling_state_setup,
  scaling_state_setup, deployment_setup, deployment_config_setup, redis_cluster_setup,
}
use pre_scaling_operator.Startup.{
  client_go, openshift, scaling, redis, Host, Process, Boot, done, ◌>>=◌, must, init, or_exit,
  create, create_if, schedule, main,
}

abbrev pub IsOk : {A : Type 0} → Result A → Type 0
IsOk (ok a) = Unit
IsOk (err e) = ⊥

-- The watchers that are asked for where the cluster has their type of objects.
abbrev pub found : Host → List Registration
found host =
    (if (openshift_cluster_check host.discovery).0 then deployment_config_setup ∷ [] else [])
    ++ (if (redis_cluster_installed host.discovery).0 then redis_cluster_setup ∷ [] else [])

abbrev pub wanted : Host → List Registration
wanted host =
    cluster_scaling_state_definition_setup
    ∷ (cluster_scaling_state_setup ∷ (scaling_state_setup ∷ (deployment_setup ∷ found host)))

abbrev pub AllComplete : Host → List Registration → Type 0
AllComplete host [] = Unit
AllComplete host (r ∷ rs) = IsOk (host.complete r) × AllComplete host rs

-- Everything that main does not do without.
pub record Starts (host : Host) : Type 0 where
  pub client_go_added : IsOk (host.add_to_scheme client_go)
  pub openshift_added : IsOk (host.add_to_scheme openshift)
  pub scaling_added : IsOk (host.add_to_scheme scaling)
  pub redis_added : IsOk (host.add_to_scheme redis)
  pub managed : IsOk host.new_manager
  pub completed : AllComplete host (wanted host)
  pub healthy : IsOk (host.add_healthz_check (bytes "health"))
  pub ready : IsOk (host.add_readyz_check (bytes "check"))
  pub ran : IsOk host.start

abbrev pub process_of : Host → Process
process_of host = record {
  controllers = wanted host;
  openshift_cluster = (openshift_cluster_check host.discovery).0;
  redis_cluster = (redis_cluster_installed host.discovery).0;
  jobs = schedule (host.add_func (bytes "@every 0h1m"));
}

-- A step whose failure ends the program.
must-done :
    {B : Type 0} (r : Result (Unit {0})) (f : Unit {0} → Boot B) (b : B)
    → ((must r >>= f) ≡ done b) ↔ (IsOk r × (f tt ≡ done b))
unfolding must
must-done (ok _) f b = ((λ h. (tt, h)), (λ h. h.1))
must-done (err e) f b = ((λ h. cc), (λ h. absurd h.0))

or_exit-done :
    {B : Type 0} (log : Text) (r : Result (Unit {0})) (f : Unit {0} → Boot B) (b : B)
    → ((or_exit log r >>= f) ≡ done b) ↔ (IsOk r × (f tt ≡ done b))
unfolding or_exit
or_exit-done log (ok _) f b = ((λ h. (tt, h)), (λ h. h.1))
or_exit-done log (err e) f b = ((λ h. cc), (λ h. absurd h.0))

create-done :
    {B : Type 0} (host : Host) (r : Registration) (f : Unit {0} → Boot B) (b : B)
    → ((create host r >>= f) ≡ done b) ↔ (IsOk (host.complete r) × (f tt ≡ done b))
unfolding create
create-done host r f b = or_exit-done _ (host.complete r) f b

abbrev when : Bool → Registration → List Registration
when b r = if b then r ∷ [] else []

AllComplete-append :
    (host : Host) (rs ss : List Registration)
    → AllComplete host rs
    → AllComplete host ss
    → AllComplete host (rs ++ ss)
AllComplete-append host [] ss h k = k
AllComplete-append host (r ∷ rs) ss h k = (h.0, AllComplete-append host rs ss h.1 k)

append-AllComplete :
    (host : Host) (rs ss : List Registration)
    → AllComplete host (rs ++ ss)
    → AllComplete host rs × AllComplete host ss
append-AllComplete host [] ss h = (tt, h)
append-AllComplete host (r ∷ rs) ss h =
    let (k, l) = append-AllComplete host rs ss h.1 in ((h.0, k), l)

create_if-done :
    {B : Type 0} (host : Host) (b : Bool) (r : Registration) (f : List Registration → Boot B)
    (p : B)
    → ((create_if host b r >>= f) ≡ done p)
      ↔ (AllComplete host (when b r) × (f (when b r) ≡ done p))
unfolding create_if create or_exit
create_if-done host false r f p = ((λ h. (tt, h)), (λ h. h.1))
create_if-done host true r f p = by_answer (host.complete r) refl
  where
    by_answer :
        (answer : Result (Unit {0}))
        → host.complete r ≡ answer
        → ((create_if host true r >>= f) ≡ done p)
          ↔ ((IsOk (host.complete r) × Unit {0}) × (f (r ∷ []) ≡ done p))
    by_answer (ok _) e = rw e ((λ h. ((tt, tt), h)), (λ h. h.1))
    by_answer (err x) e = rw e ((λ h. cc), (λ h. absurd h.0.0))

init-done :
    {B : Type 0} (host : Host) (f : Unit {0} → Boot B) (p : B)
    → ((init host >>= f) ≡ done p) ↔ (
        IsOk (host.add_to_scheme client_go)
        × IsOk (host.add_to_scheme openshift)
        × IsOk (host.add_to_scheme scaling)
        × IsOk (host.add_to_scheme redis)
        × (f tt ≡ done p))
unfolding init must
init-done {B} host f p =
    by_answers (host.add_to_scheme client_go) (host.add_to_scheme openshift)
      (host.add_to_scheme scaling) (host.add_to_scheme redis)
  where
    by_answers :
        (a b c d : Result (Unit {0}))
        → (((must a >>= λ _. (must b >>= λ _. (must c >>= λ _. must d))) >>= f) ≡ done p)
          ↔ (IsOk a × IsOk b × IsOk c × IsOk d × (f tt ≡ done p))
    by_answers (ok _) (ok _) (ok _) (ok _) = ((λ h. (tt, tt, tt, tt, h)), (λ h. h.4))
    by_answers (ok _) (ok _) (ok _) (err e) = ((λ h. cc), (λ h. absurd h.3))
    by_answers (ok _) (ok _) (err e) d = ((λ h. cc), (λ h. absurd h.2))
    by_answers (ok _) (err e) c d = ((λ h. cc), (λ h. absurd h.1))
    by_answers (err e) b c d = ((λ h. cc), (λ h. absurd h.0))

main-Starts : (host : Host) (p : Process) → main host ≡ done p → Starts host × (process_of host ≡ p)
unfolding main
main-Starts host p h =
    let (a, b, c, d, h1) = (init-done host _ p).0 h in
    let (managed, h2) = (or_exit-done _ host.new_manager _ p).0 h1 in
    let (c1, h3) = (create-done host cluster_scaling_state_definition_setup _ p).0 h2 in
    let (c2, h4) = (create-done host cluster_scaling_state_setup _ p).0 h3 in
    let (c3, h5) = (create-done host scaling_state_setup _ p).0 h4 in
    let (c4, h6) = (create-done host deployment_setup _ p).0 h5 in
    let (c5, h7) = (create_if-done host _ deployment_config_setup _ p).0 h6 in
    let (c6, h8) = (create_if-done host _ redis_cluster_setup _ p).0 h7 in
    let (healthy, h9) = (or_exit-done _ (host.add_healthz_check (bytes "health")) _ p).0 h8 in
    let (ready, h10) = (or_exit-done _ (host.add_readyz_check (bytes "check")) _ p).0 h9 in
    let (ran, h11) = (or_exit-done _ host.start _ p).0 h10 in
    (
      record {
        client_go_added = a;
        openshift_added = b;
        scaling_added = c;
        redis_added = d;
        managed = managed;
        completed = (c1, (c2, (c3, (c4, AllComplete-append host (when _ _) (when _ _) c5 c6))));
        healthy = healthy;
        ready = ready;
        ran = ran;
      },
      ground (arith, h11),
    )

Starts-main : (host : Host) → Starts host → main host ≡ done (process_of host)
unfolding main
Starts-main host s =
    let (c1, (c2, (c3, (c4, rest)))) = s.completed in
    let (c5, c6) = append-AllComplete host (when _ _) (when _ _) rest in
    (init-done host _ _).1 (
      s.client_go_added,
      s.openshift_added,
      s.scaling_added,
      s.redis_added,
      (or_exit-done _ host.new_manager _ _).1 (
        s.managed,
        (create-done host cluster_scaling_state_definition_setup _ _).1 (
          c1,
          (create-done host cluster_scaling_state_setup _ _).1 (
            c2,
            (create-done host scaling_state_setup _ _).1 (
              c3,
              (create-done host deployment_setup _ _).1 (
                c4,
                (create_if-done host _ deployment_config_setup _ _).1 (
                  c5,
                  (create_if-done host _ redis_cluster_setup _ _).1 (
                    c6,
                    (or_exit-done _ (host.add_healthz_check (bytes "health")) _ _).1 (
                      s.healthy,
                      (or_exit-done _ (host.add_readyz_check (bytes "check")) _ _).1
                          (s.ready, (or_exit-done _ host.start _ _).1 (s.ran, refl)),
                    ),
                  ),
                ),
              ),
            ),
          ),
        ),
      ),
    )

-- The operator comes to run, and later ends without an error, just if the types are added to the
-- scheme, the manager is made and runs, its two checks are set up, and each wanted controller is
-- created: the four that are always wanted, and the watcher of DeploymentConfigs or of RedisClusters
-- where the discovery finds their type. It then has the wanted controllers and no other, and the job
-- of the rectifier where that could be scheduled; no error of the discovery or of the schedule ends it.
pub main_lem :
    (host : Host) (p : Process) → (main host ≡ done p) ↔ (Starts host × (process_of host ≡ p))
main_lem host p = (main-Starts host p, λ (s, e). Starts-main host s ∙ ap done e)
