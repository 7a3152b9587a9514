-- ===== src/Validations/Discovery/Found.antt =====
-- What the check for OpenShift finds, and which errors it passes on.
use pre_scaling_operator.Common.{
  Text, ==_iff, contains, Bool, true, false, Option, none, some, List, [], ◌∷◌, Error, message,
  Result, ok, err, ◌≡◌, ◌↔◌, ◌⊎◌, inl, inr, refl, subst, arith, Bool-cases,
}
use pre_scaling_operator.Validations.Discovery.{
  Discovery, get_client_set, missing_or_error, any_deployment_config, openshift_cluster_check,
  openshift_object_group, openshift_resources, resource_not_found,
}

abbrev pub Among : Text → List Text → Type 0
Among kind [] = ⊥
Among kind (k ∷ kinds) = (k ≡ kind) ⊎ Among kind kinds

any_deployment_config-Among :
    (kinds : List Text) → (any_deployment_config kinds ≡ true) ↔ Among openshift_resources kinds
unfolding any_deployment_config
any_deployment_config-Among [] = ((λ h. cc), (λ h. absurd h))
any_deployment_config-Among (k ∷ kinds) = (
  (λ h. ground (arith, ==_iff k openshift_resources, any_deployment_config-Among kinds, h)),
  (λ h. elim h [
    | inl e ↦ ground (arith, ==_iff k openshift_resources, e)
    | inr m ↦ ground (arith, any_deployment_config-Among kinds, m)
  ]),
)

-- An OpenShift cluster lists DeploymentConfigs in the group of OpenShift.
abbrev pub Offers : Result (Unit {0}) → Result (List Text) → Type 0
Offers client answer =
    (client ≡ ok tt) × ((kinds : List Text) × (answer ≡ ok kinds) × Among openshift_resources kinds)

-- The errors that are passed on: the client's, and the cluster's but that the group is not there.
abbrev pub Reports : Result (Unit {0}) → Result (List Text) → Error → Type 0
Reports client answer e =
    (client ≡ err e)
    ⊎ ((client ≡ ok tt) × (answer ≡ err e) × (contains (message e) resource_not_found ≡ false))

-- The check, by what the client and the cluster answered.
abbrev checked : Result (Unit {0}) → Result (List Text) → Bool × Option Error
checked (err e) answer = (false, some e)
checked (ok client) (err e) = missing_or_error e
checked (ok client) (ok kinds) = (any_deployment_config kinds, none)

ok-injective : (xs ys : List Text) → ◌≡◌ {A = Result (List Text)} (ok ys) (ok xs) → xs ≡ ys
ok-injective xs ys h = cc

checked_lem :
    (client : Result (Unit {0})) (answer : Result (List Text))
    → (((checked client answer).0 ≡ true) ↔ Offers client answer)
      × ((e : Error) → ((checked client answer).1 ≡ some e) ↔ Reports client answer e)
unfolding missing_or_error
checked_lem (err x) answer = (
  ((λ h. cc), (λ h. cc (h.0))),
  λ e. ((λ h. inl (cc)), (λ h. elim h [ inl same ↦ cc | inr (fine, _, _) ↦ cc ])),
)
checked_lem (ok _) (err x) = (
  ((λ h. absurd (ground (arith, h))), (λ (_, (kinds, other, _)). cc)),
  λ e. elim (Bool-cases (contains (message x) resource_not_found)) [
    | inl missing ↦ rw missing (
      (λ h. cc),
      (λ h. elim h [
        | inl wrong ↦ cc
        | inr (_, same, there) ↦ ground (arith, missing, same, there)
      ]),
    )
    | inr there ↦ rw there (
      (λ h. inr (refl, cc, ground (arith, h, there))),
      (λ h. elim h [ inl wrong ↦ cc | inr (_, same, _) ↦ cc ]),
    )
  ],
)
checked_lem (ok _) (ok kinds) = (
  (
    (λ h. (refl, (kinds, refl, (any_deployment_config-Among kinds).0 h))),
    (λ (_, (others, same, m)).
        (any_deployment_config-Among kinds).1
          (subst (Among openshift_resources) (ok-injective others kinds same) m)),
  ),
  λ e. ((λ h. cc), (λ h. elim h [ inl wrong ↦ cc | inr (_, wrong, _) ↦ cc ])),
)

openshift_cluster_check-checked :
    (d : Discovery)
    → openshift_cluster_check d
      ≡ checked (get_client_set d) (d.server_resources openshift_object_group)
unfolding openshift_cluster_check
openshift_cluster_check-checked d = ground arith

-- OpenshiftClusterCheck finds an OpenShift cluster just if the client could be made and the cluster
-- lists DeploymentConfigs in the group of OpenShift; it gives an error just if the client could not be
-- made, or the cluster answers with an error that does not say that the resource is not there.
pub openshift_cluster_check_lem :
    (d : Discovery)
    → let (found, error) = openshift_cluster_check d in
      ((found ≡ true) ↔ Offers (get_client_set d) (d.server_resources openshift_object_group))
      × ((e : Error)
          → (error ≡ some e)
            ↔ Reports (get_client_set d) (d.server_resources openshift_object_group) e)
openshift_cluster_check_lem d =
    rw (openshift_cluster_check-checked d)
      (checked_lem (get_client_set d) (d.server_resources openshift_object_group))
