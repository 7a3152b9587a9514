-- ===== src/Tests/Starting.antt =====
-- The start of the operator on an OpenShift cluster without RedisClusters.
use pre_scaling_operator.Common.{
  bytes, ◌==◌, contains, message, true, false, [], ◌∷◌, if◌then◌else◌, Error, plain, ok, err, some,
  ◌≡◌, ◌↔◌, refl,
}
use pre_scaling_operator.Validations.Discovery.{
  Discovery, openshift_object_group, resource_not_found, get_client_set, openshift_cluster_check,
  redis_cluster_installed,
}
use pre_scaling_operator.Validations.Discovery.Found.{Offers, Reports, openshift_cluster_check_lem}
use pre_scaling_operator.Controllers.Setup.{
  cluster_scaling_state_definition_setup, cluster_scaling_state_setup, scaling_state_setup,
  deployment_setup, deployment_config_setup,
}
use pre_scaling_operator.Startup.{
  Host, Process, main, done, init, must, or_exit, create, create_if, schedule,
}
use pre_scaling_operator.Startup.Wiring.{Starts, process_of, main_lem}

abbrev on_openshift : Discovery
on_openshift = record {
  client_config = ok tt;
  new_for_config = ok tt;
  server_resources = λ group.
      if group == openshift_object_group
      then ok (bytes "DeploymentConfig" ∷ [])
      else err (plain resource_not_found);
}

abbrev host : Host
host = record {
  add_to_scheme = λ scheme. ok tt;
  new_manager = ok tt;
  complete = λ registration. ok tt;
  discovery = on_openshift;
  add_healthz_check = λ name. ok tt;
  add_readyz_check = λ name. ok tt;
  add_func = λ time. ok tt;
  start = ok tt;
}

abbrev running : Process
running = record {
  controllers =
      cluster_scaling_state_definition_setup
      ∷ (cluster_scaling_state_setup
          ∷ (scaling_state_setup ∷ (deployment_setup ∷ (deployment_config_setup ∷ []))));
  openshift_cluster = true;
  redis_cluster = false;
  jobs = bytes "@every 0h1m" ∷ [];
}

main_runs : main host ≡ done running
unfolding main init must or_exit create create_if schedule openshift_cluster_check
    redis_cluster_installed ◌==◌ contains message
main_runs = refl

main_example : (main host ≡ done running) ↔ (Starts host × (process_of host ≡ running))
main_example = main_lem host running

openshift_cluster_check_example :
    let (found, error) = openshift_cluster_check on_openshift in
    ((found ≡ true)
      ↔ Offers (get_client_set on_openshift) (on_openshift.server_resources openshift_object_group))
    × ((e : Error)
        → (error ≡ some e)
          ↔ Reports
              (get_client_set on_openshift)
              (on_openshift.server_resources openshift_object_group)
              e)
openshift_cluster_check_example = openshift_cluster_check_lem on_openshift
