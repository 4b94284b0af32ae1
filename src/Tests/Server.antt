-- ===== src/Tests/Server.antt =====
-- A server that answers every read alike and accepts every write, and the parts of the helper
-- packages that the operator calls, written out. They satisfy what the operator relies on.
use redkey_operator.Common.{
  ℕ, suc, String, Bool, true, false, ◌&&◌, ◌==◌, Option, none, some, List, [], ◌∷◌, ◌≡◌, refl, sym,
  ap, ◌∙◌, ◌↔◌, arith, if◌then◌else◌, eq_iff, eq_refl, Bool-cases, Option-cases, String-cases, inl,
  inr,
}
use redkey_operator.Common.Int.{pos}
use redkey_operator.Common.GoMap.{GoMap, entries, find, lookup, Same}
use redkey_operator.Api.Types.{Types, Time}
use redkey_operator.Api.Meta.{Condition}
use redkey_operator.Api.Config.{RedkeyConfig}
use redkey_operator.Api.Redkey.{Redkey}
use redkey_operator.Kube.Client.{ok_injective, Kube, Result, ok, err}
use redkey_operator.Kube.Collectors.{Collectors, GaugeVec}
use redkey_operator.Kube.Action.{Env}
use redkey_operator.Kube.Willing.{Willing}
use redkey_operator.Kube.Laws.{
  Retried, last, again, reading, RetryLaw, ConditionLaws, EqualityLaws, OwnerLaw, same_vec,
  GaugeLaws,
}

-- Values of other packages' types are not looked at.
abbrev pub types : Types
types = record {
  ResourceList = Unit {0};
  ResourceClaim = Unit {0};
  EnvVarSource = Unit {0};
  EnvFromSource = Unit {0};
  VolumeMount = Unit {0};
  SecurityContext = Unit {0};
  PodSecurityContext = Unit {0};
  EphemeralContainer = Unit {0};
  LocalObjectReference = Unit {0};
  Affinity = Unit {0};
  Toleration = Unit {0};
  TopologySpreadConstraint = Unit {0};
  Volume = Unit {0};
  PersistentVolumeClaim = Unit {0};
  ServicePort = Unit {0};
  ContainerRest = Unit {0};
  no_rest = tt;
  PodSpecRest = Unit {0};
  no_pod_rest = tt;
  DeploymentSpecRest = Unit {0};
  no_deployment_rest = tt;
  LabelSelector = Unit {0};
  OwnerReference = Unit {0};
  StatefulSetUpdateStrategy = Unit {0};
  PersistentVolumeClaimRetentionPolicy = Unit {0};
  StatefulSetOrdinals = Unit {0};
  IntOrString = Unit {0};
}

pub data Failure : Type 0 where
  missing exists stale : Failure

abbrev is_missing : Failure → Bool
is_missing missing = true
is_missing exists = false
is_missing stale = false

abbrev is_existing : Failure → Bool
is_existing missing = false
is_existing exists = true
is_existing stale = false

abbrev is_stale : Failure → Bool
is_stale missing = false
is_stale exists = false
is_stale stale = true

-- One retry after a conflict.
abbrev retry :
    {S A E : Type 0} → (E → Bool) → (S → Result E A × S) → Result E A × S → Result E A × S
retry is_conflict fn (ok a, s) = (ok a, s)
retry is_conflict fn (err e, s) = let second = fn s in if is_conflict e then second else (err e, s)

abbrev same_answer : Option String → Option String → Bool
same_answer none none = true
same_answer none (some b) = false
same_answer (some a) none = false
same_answer (some a) (some b) = a == b

-- Two maps with the same answers at the listed keys.
abbrev agree : GoMap String → GoMap String → List (String × String) → Bool
agree m n [] = true
agree m n ((k, v) ∷ es) = same_answer (lookup k m) (lookup k n) && agree m n es

abbrev same_maps : GoMap String → GoMap String → Bool
same_maps m n = agree m n (entries m) && agree m n (entries n)

abbrev set_condition : Time → List (Condition types) → Condition types → List (Condition types)
set_condition t [] c = c ∷ []
set_condition t (d ∷ cs) c =
    let rest = set_condition t cs c in if d.kind == c.kind then c ∷ cs else d ∷ rest

abbrev find_condition : List (Condition types) → String → Option (Condition types)
find_condition [] kind = none
find_condition (d ∷ cs) kind = if d.kind == kind then some d else find_condition cs kind

abbrev pub server : Result Failure (Redkey types) → List (RedkeyConfig types) → Kube types
server cluster listing = record {
  World = ℕ;
  ApiError = Failure;
  is_not_found = is_missing;
  is_already_exists = is_existing;
  is_conflict = is_stale;
  now = λ w. (pos w, suc w);
  get_redkey = λ key w. (cluster, w);
  get_service_account = λ key w. (err missing, w);
  get_role = λ key w. (err missing, w);
  get_role_binding = λ key w. (err missing, w);
  get_deployment = λ key w. (err missing, w);
  list_configs = λ ns label value w. (ok listing, w);
  submit = λ write w. (ok tt, w);
  submit_status = λ c w. (ok c, w);
  set_controller_reference = λ owner m. ok (record m { owner_references = tt ∷ [] });
  retry_on_conflict = λ {S} {A} {E} is_conflict fn s. retry is_conflict fn (fn s);
  deep_equal_maps = same_maps;
  deep_equal = λ {A} a b. true;
  deep_derivative = λ {A} a b. true;
  set_status_condition = set_condition;
  find_status_condition = find_condition;
}

-- Gauges only.
abbrev pub gauges : Collectors
gauges = record {
  Registry = GaugeVec → String → String → String → Option ℕ;
  set_gauge = λ v ns name third x r u ns' name' third'.
      if same_vec u v && (ns' == ns && (name' == name && third' == third))
      then some x
      else r u ns' name' third';
  delete_partial_match = λ v ns name r u ns' name' third'.
      if same_vec u v && (ns' == ns && name' == name) then none else r u ns' name' third';
  inc = λ v labels r. r;
  observe = λ v labels d r. r;
  gauge = λ u ns name third r. r u ns name third;
  counter = λ v labels r. 0;
  samples = λ v labels r. 0;
}

abbrev pub env : Result Failure (Redkey types) → List (RedkeyConfig types) → Env types
env cluster listing = record { kube = server cluster listing; collectors = gauges }

same_answer_eq : (a b : Option String) → same_answer a b ≡ true → a ≡ b
same_answer_eq none none h = refl
same_answer_eq none (some b) h = absurd (cc)
same_answer_eq (some a) none h = absurd (cc)
same_answer_eq (some a) (some b) h = ap (λ x. some x) ((eq_iff a b).0 h)

same_answer_refl : (a : Option String) → same_answer a a ≡ true
same_answer_refl none = refl
same_answer_refl (some a) = eq_refl a

agree_same :
    (m n : GoMap String) (es : List (String × String)) (k v : String)
    → agree m n es ≡ true
    → find k es ≡ some v
    → lookup k m ≡ lookup k n
agree_same m n [] k v h e = absurd (cc)
agree_same m n ((j, w) ∷ es) k v h e = elim (String-cases k j) [
  | inl (b, same) ↦ rw (same) (same_answer_eq _ _ (ground (arith, h)))
  | inr (b, differ) ↦ ground (arith, h, b, e, agree_same m n es k v)
]

Same-agree : (m n : GoMap String) (es : List (String × String)) → Same m n → agree m n es ≡ true
Same-agree m n [] h = refl
Same-agree m n ((j, w) ∷ es) h =
    rw (h j) (ground (arith, same_answer_refl (lookup j n), Same-agree m n es h))

same_maps_iff : (m n : GoMap String) → (same_maps m n ≡ true) ↔ Same m n
same_maps_iff m n =
    (forth, λ h. ground (arith, Same-agree m n (entries m) h, Same-agree m n (entries n) h))
  where
    forth : same_maps m n ≡ true → Same m n
    forth h k = elim (Option-cases (lookup k m)) [
      | inr (v, e) ↦ agree_same m n (entries m) k v (ground (arith, h)) e
      | inl e ↦ elim (Option-cases (lookup k n)) [
        | inr (v, e') ↦ agree_same m n (entries n) k v (ground (arith, h)) e'
        | inl e' ↦ e ∙ sym e'
      ]
    ]

module _ (cluster : Result Failure (Redkey types)) (listing : List (RedkeyConfig types)) where
  pub server-RetryLaw : RetryLaw (server cluster listing)
  server-RetryLaw = record {
    retried = λ {S} {A} {E} is_conflict fn s. by_first is_conflict fn s (fn s) refl;
  }
    where
      by_first :
          {S A E : Type 0} (is_conflict : E → Bool) (fn : S → Result E A × S) (s : S)
          (r : Result E A × S)
          → fn s ≡ r
          → Retried is_conflict fn s (retry is_conflict fn r)
      by_first is_conflict fn s (ok a, s') h = last h
      by_first is_conflict fn s (err e, s') h = elim (Bool-cases (is_conflict e)) [
        | inl is ↦ rw (is) (again e s' h is (last refl))
        | inr differs ↦ rw (differs) (last h)
      ]

  pub server-OwnerLaw : OwnerLaw (server cluster listing)
  server-OwnerLaw = record {
    keeps = λ owner m m' h.
        let e = ok_injective h in
        (
          sym (ap (λ x. x.name) e),
          sym (ap (λ x. x.namespace) e),
          sym (ap (λ x. x.labels) e),
          sym (ap (λ x. x.annotations) e),
        );
  }

  pub server-EqualityLaws : EqualityLaws (server cluster listing)
  server-EqualityLaws = record {
    deep_equal_maps-iff = same_maps_iff;
    deep_equal_refl = λ {A} a. refl;
    deep_derivative_refl = λ {A} a. refl;
  }

  pub server-ConditionLaws : ConditionLaws (server cluster listing)
  server-ConditionLaws = record { reading-set = set_one; reading-nil = λ kind. refl }
    where
      set_one :
          (t : Time) (cs : List (Condition types)) (c : Condition types) (kind : String)
          → reading (server cluster listing) (set_condition t cs c) kind ≡ (
              if kind == c.kind
              then some (c.status, c.reason, c.message)
              else reading (server cluster listing) cs kind)
      set_one t [] c kind = ground (arith, eq_iff kind c.kind, eq_iff c.kind kind)
      set_one t (d ∷ cs) c kind = ground (
        arith,
        eq_iff kind c.kind,
        eq_iff c.kind kind,
        eq_iff d.kind c.kind,
        eq_iff d.kind kind,
        set_one t cs c kind,
      )

pub gauges-GaugeLaws : GaugeLaws gauges
gauges-GaugeLaws = record {
  gauge-set = λ v u ns name third ns' name' third' x r. refl;
  gauge-delete = λ v u ns name ns' name' third' r. refl;
  gauge-inc = λ v labels u ns name third r. refl;
  gauge-observe = λ v labels d u ns name third r. refl;
}

-- The server answers every read, accepts every write, and has the cluster.
pub server-Willing :
    (cluster : Redkey types) (listing : List (RedkeyConfig types))
    → Willing (server (ok cluster) listing)
server-Willing cluster listing = record {
  redkey = λ key w. (cluster, refl);
  service_account = λ key w. refl;
  role = λ key w. refl;
  role_binding = λ key w. refl;
  deployment = λ key w. refl;
  configs = λ ns label value w. (listing, refl);
  accepts = λ r w. refl;
  accepts_status = λ c w. (c, refl);
  owned = λ owner m. (record m { owner_references = tt ∷ [] }, refl);
}
