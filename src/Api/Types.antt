-- ===== src/Api/Types.antt =====
-- The Kubernetes and Go types whose values the operator only passes on, as parameters.

use redkey_operator.Common.Int.{ℤ, pos}

-- time.Time and metav1.Time: nanoseconds since Go's zero time. A time.Duration is a difference.
abbrev pub Time : Type 0
Time = ℤ

abbrev pub zero_time : Time
zero_time = pos 0

pub record Types : Type 1 where
  -- core/v1
  pub ResourceList : Type 0
  pub ResourceClaim : Type 0
  pub EnvVarSource : Type 0
  pub EnvFromSource : Type 0
  pub VolumeMount : Type 0
  pub SecurityContext : Type 0
  pub PodSecurityContext : Type 0
  pub EphemeralContainer : Type 0
  pub LocalObjectReference : Type 0
  pub Affinity : Type 0
  pub Toleration : Type 0
  pub TopologySpreadConstraint : Type 0
  pub Volume : Type 0
  pub PersistentVolumeClaim : Type 0
  pub ServicePort : Type 0
  -- the fields of core/v1 Container that the operator does not name
  pub ContainerRest : Type 0
  pub no_rest : ContainerRest
  -- the fields of core/v1 PodSpec and apps/v1 DeploymentSpec that the operator does not name
  pub PodSpecRest : Type 0
  pub no_pod_rest : PodSpecRest
  pub DeploymentSpecRest : Type 0
  pub no_deployment_rest : DeploymentSpecRest
  -- metav1
  pub LabelSelector : Type 0
  pub OwnerReference : Type 0
  -- apps/v1
  pub StatefulSetUpdateStrategy : Type 0
  pub PersistentVolumeClaimRetentionPolicy : Type 0
  pub StatefulSetOrdinals : Type 0
  -- intstr
  pub IntOrString : Type 0
