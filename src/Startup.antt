-- ===== src/Startup.antt =====
-- main.go: the start of the operator. The flags, the logs and the times are left out; `host` answers
-- for the libraries that main calls.
pub mod Wiring
use pre_scaling_operator.Common.{
  Text, bytes, Bool, true, false, List, [], ◌∷◌, ◌++◌, if◌then◌else◌, Error, Result, ok, err,
}
use pre_scaling_operator.Validations.Discovery.{
  Discovery, openshift_cluster_check, redis_cluster_installed,
}
use pre_scaling_operator.Controllers.Setup.{
  Registration, cluster_scaling_state_definition_setup, cluster_scaling_state_setup,
  scaling_state_setup, deployment_setup, deployment_config_setup, redis_cluster_setup,
}

-- The libraries whose types are added to the scheme.
pub data Scheme : Type 0 where
  client_go : Scheme
  openshift : Scheme
  scaling : Scheme
  redis : Scheme

-- What the calls of the libraries answer.
pub record Host : Type 0 where
  pub add_to_scheme : Scheme → Result (Unit {0})
  pub new_manager : Result (Unit {0})
  pub complete : Registration → Result (Unit {0})  -- the end of SetupWithManager
  pub discovery : Discovery
  pub add_healthz_check : Text → Result (Unit {0})
  pub add_readyz_check : Text → Result (Unit {0})
  pub add_func : Text → Result (Unit {0})  -- a job of cron
  pub start : Result (Unit {0})  -- until the manager is stopped

-- What was set up when the manager started.
pub record Process : Type 0 where
  pub controllers : List Registration
  pub openshift_cluster : Bool
  pub redis_cluster : Bool
  pub jobs : List Text  -- the times of the jobs of cron

-- How the program ends: by itself, by os.Exit(1) after a log, or by a panic of utilruntime.Must.
pub data Boot (A : Type 0) : Type 0 where
  done : A → Boot A
  exits : Text → Boot A
  panics : Error → Boot A

infixl 5 ◌>>=◌ ◌>>◌
abbrev pub ◌>>=◌ : {A B : Type 0} → Boot A → (A → Boot B) → Boot B
done a >>= f = f a
exits log >>= f = exits log
panics e >>= f = panics e

abbrev pub ◌>>◌ : {B : Type 0} → Boot (Unit {0}) → Boot B → Boot B
m >> k = m >>= λ _. k

-- utilruntime.Must
unfoldable pub must : Result (Unit {0}) → Boot (Unit {0})
must (ok _) = done tt
must (err e) = panics e

unfoldable pub init : Host → Boot (Unit {0})
init host = do
  must (host.add_to_scheme client_go)
  must (host.add_to_scheme openshift)
  must (host.add_to_scheme scaling)
  must (host.add_to_scheme redis)

-- if err != nil { setupLog.Error(err, log); os.Exit(1) }
unfoldable pub or_exit : Text → Result (Unit {0}) → Boot (Unit {0})
or_exit log (ok _) = done tt
or_exit log (err e) = exits log

unfoldable pub create : Host → Registration → Boot (Unit {0})
create host registration =
    or_exit (bytes "unable to create controller") (host.complete registration)

-- A watcher of a type of objects that the cluster may not have.
unfoldable pub create_if : Host → Bool → Registration → Boot (List Registration)
create_if host false registration = done []
create_if host true registration = do create host registration; done (registration ∷ [])

-- The job that calls RectifyScaleItemsInFailureState; an error of AddFunc is dropped.
unfoldable pub schedule : Result (Unit {0}) → List Text
schedule (ok _) = bytes "@every 0h1m" ∷ []
schedule (err e) = []

unfoldable pub main : Host → Boot Process
main host = do
  init host
  or_exit (bytes "unable to start manager") host.new_manager
  create host cluster_scaling_state_definition_setup
  create host cluster_scaling_state_setup
  create host scaling_state_setup
  create host deployment_setup
  let openshift_cluster = (openshift_cluster_check host.discovery).0
  configs ← create_if host openshift_cluster deployment_config_setup
  let redis_cluster = (redis_cluster_installed host.discovery).0
  clusters ← create_if host redis_cluster redis_cluster_setup
  or_exit (bytes "unable to set up health check") (host.add_healthz_check (bytes "health"))
  or_exit (bytes "unable to set up ready check") (host.add_readyz_check (bytes "check"))
  let jobs = schedule (host.add_func (bytes "@every 0h1m"))
  or_exit (bytes "problem running manager") host.start
  done (record {
    controllers =
        cluster_scaling_state_definition_setup
        ∷ (cluster_scaling_state_setup
            ∷ (scaling_state_setup ∷ (deployment_setup ∷ (configs ++ clusters))));
    openshift_cluster = openshift_cluster;
    redis_cluster = redis_cluster;
    jobs = jobs;
  })
