-- ===== src/Config/Sequence/Order.antt =====
-- The order of the listed configs, and the sequence number of the next one.
use mathlib.Core.List.{Perm}
use redkey_operator.Common.{refl, subst, true, false, some, List, ◌≡◌, All, All-map, last?, arith}
use redkey_operator.Common.Int.{pos, ◌+ℤ◌, ◌<ℤ◌, ◌≤ℤ◌, wrap64_exact, IsInt64, int_laws}
use redkey_operator.Common.Sort.{
  IsSorted, sort_slice, sort_slice-IsSorted, sort_slice-perm, last?-greatest,
}
use redkey_operator.Api.Types.{Types}
use redkey_operator.Api.Config.{RedkeyConfig}
use redkey_operator.Config.Sequence.{before, list_configs}
use redkey_operator.Config.Create.{next_sequence}
use redkey_operator.Api.Redkey.{Redkey}
use redkey_operator.Kube.Client.{ok_injective, Result, ok, err}
use redkey_operator.Kube.Action.{Env, State, continue, answer, pure, ◌>>=◌}
use redkey_operator.Robin.Merge.{cluster_label}

module _ {T : Types} where
  before_asym : (a b : RedkeyConfig T) → before a b ≡ true → before b a ≡ false
  before_asym a b h = ground arith

  before_trans :
      (a b c : RedkeyConfig T) → before b a ≡ false → before c b ≡ false → before c a ≡ false
  before_trans a b c h k = ground arith

  not_after : (a b : RedkeyConfig T) → before b a ≡ false → a.spec.sequence ≤ℤ b.spec.sequence
  not_after a b h = ground arith

  -- Of any configs that the server returns, the next sequence number is greater than each one's,
  -- if it can be written in 64 bits.
  pub next_sequence-greatest :
      (items : List (RedkeyConfig T)) (highest : RedkeyConfig T)
      → last? (sort_slice before items) ≡ some highest
      → IsInt64 (highest.spec.sequence +ℤ pos 1)
      → All (λ c. c.spec.sequence <ℤ next_sequence (some highest)) (sort_slice before items)
  unfolding next_sequence
  next_sequence-greatest items highest found fits =
      All-map (λ c. before highest c ≡ false) (λ c. c.spec.sequence <ℤ next_sequence (some highest))
        (λ c h. rw (wrap64_exact _ fits) (omega (int_laws, not_after c highest h)))
        (sort_slice before items)
        (last?-greatest before (λ x. ground arith) _ highest
          (sort_slice-IsSorted before before_asym before_trans items) found)

module _ {T : Types} (K : Env T) where
  -- A listing that succeeds is in the order of the sequence numbers, and holds exactly the configs
  -- that the server returned for the cluster's namespace and label.
  pub list_configs-IsSorted :
      (cluster : Redkey T) (s : State K) (configs : List (RedkeyConfig T))
      → ((list_configs K cluster).run s).0 ≡ ok configs
      → IsSorted before configs
        × ((items : List (RedkeyConfig T)) × ((K.list_configs cluster.meta.namespace cluster_label
                cluster.meta.name s.world).0
              ≡ ok items)
            × Perm configs items)
  unfolding list_configs ◌>>=◌
  list_configs-IsSorted cluster s configs h =
      by_reply (K.list_configs cluster.meta.namespace cluster_label cluster.meta.name s.world).0 s'
        h
    where
      s' : State K
      s' = record s {
        world = (K.list_configs cluster.meta.namespace cluster_label cluster.meta.name s.world).1;
      }

      by_reply :
          (reply : Result K.ApiError (List (RedkeyConfig T))) (s1 : State K)
          → (continue {K = K} (λ items. pure (sort_slice before items)) (answer reply s1)).0
            ≡ ok configs
          → IsSorted before configs
            × ((items : List (RedkeyConfig T)) × (reply ≡ ok items) × Perm configs items)
      by_reply (ok items) s1 e =
          subst
            (λ cs.
              IsSorted before cs
              × ((xs : List (RedkeyConfig T)) × (◌≡◌ {A = Result K.ApiError (List (RedkeyConfig T))}
                    (ok items) (ok xs))
                  × Perm cs xs))
            (ok_injective e)
            (
              sort_slice-IsSorted before before_asym before_trans items,
              (items, refl, sort_slice-perm before items),
            )
      by_reply (err b) s1 e = absurd (cc)
