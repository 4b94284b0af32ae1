-- ===== src/Reconcile/Converges.antt =====
-- Reconciles one after the other, while nobody else is at work.
use mathlib.Core.List.{append_assoc, append-nil}
use redkey_operator.Common.{
  ℕ, zero, suc, false, some, List, [], ◌∷◌, ◌++◌, ◌≡◌, refl, sym, ap, subst, ◌∙◌, All, length,
}
use redkey_operator.Common.Int.{pos, eqb_ℤ}
use redkey_operator.Api.Types.{Types, Time}
use redkey_operator.Api.Meta.{NamespacedName}
use redkey_operator.Api.Redkey.{Redkey, RedkeyStatus, own_key}
use redkey_operator.Api.Config.{RedkeyConfig}
use redkey_operator.Kube.Client.{ok, Write, update_status}
use redkey_operator.Kube.Action.{Env, State, Action, continue, pure, ◌>>◌, ◌>>=◌}
use redkey_operator.Kube.Runs.{Runs, Runs-bind, Runs-pure, Runs-read, Runs-attempt}
use redkey_operator.Kube.Stored.{Stored}
use redkey_operator.Config.Sequence.{select_active_config}
use redkey_operator.Config.Orderly.{listed}
use redkey_operator.Config.Orderly.Creates.{Succession}
use redkey_operator.Reconcile.{reconcile_running, reconcile}
use redkey_operator.Reconcile.Steady.{refreshed}
use redkey_operator.Reconcile.Settles.{Keeping, Ready, Settled}
use redkey_operator.Reconcile.Settles.First.{reconcile_running-Settles, Placed-over, Succeeded}
use redkey_operator.Reconcile.Settles.Again.{reconcile_running-Again}

module _ {T : Types} {K : Env T} {view : K.World → Stored T} (cluster : Redkey T)
    (keeping : Keeping K view cluster) (interval : Time)
    (some_primaries : eqb_ℤ cluster.spec.primaries (pos 0) ≡ false) where
  -- The path of a cluster with primaries is the whole reconcile, whatever its status.
  reconcile-Runs :
      (status : RedkeyStatus T) (v : Stored T) (Q : Unit {0} → Stored T → List (Write T) → Type 0)
      → v.redkey ≡ some (record cluster { status = status })
      → Runs view (reconcile_running K (record cluster { status = status })) v Q
      → Runs view
          (reconcile K interval (own_key cluster))
          v
          (λ again v' ws. (again ≡ some interval) × Q tt v' ws)
  unfolding reconcile
  reconcile-Runs status v Q there running =
      Runs-bind _ (λ again v' ws. (again ≡ some interval) × Q tt v' ws)
        (Runs-attempt _ (λ c v' ws. (c ≡ record cluster { status = status }) × (v' ≡ v) × (ws ≡ []))
          (Runs-read _ (λ c. c ≡ record cluster { status = status })
            (λ w e.
              let (found, same) =
                keeping.objects.redkey_read (record cluster { status = status }) w
                  (ap (λ (x : Stored T). x.redkey) e ∙ there) in
              ((record cluster { status = status }, found, refl), same ∙ e))))
        (λ r v' ws (c, e, (is, same, silent)).
          rw (e, is, same, silent, some_primaries)
            (Runs-bind Q (λ again v' ws. (again ≡ some interval) × Q tt v' ws) running
              (λ u v' ws q. Runs-pure (some interval) _ (refl, rw (append-nil ws) q))))

  -- On a server that keeps what it is sent, answers truthfully and grants every request, with a
  -- Redkey with primaries whose configs bear the names and distinct sequence numbers that
  -- createNewConfig gives, none of them at the end of the int64 range: one reconcile succeeds, asks
  -- to be called again, and leaves the server settled, whatever Robin's objects were before. Then
  -- all four are there and right, the status names the Redkey's generation, there is a config, and
  -- none but possibly the oldest is Applied. The configs are some of the earlier ones and at most one
  -- more, with the next sequence number and its name. The cluster can own its objects, the desired
  -- Deployment's annotations do not name the revision, and the helpers obey the laws on retries,
  -- owners and equality.
  pub reconcile-settles :
      (s : State K)
      → Ready cluster keeping (view s.world)
      → (s' : State K) × ((reconcile K interval (own_key cluster)).run s ≡ (ok (some interval), s'))
        × Settled cluster keeping (view s'.world)
        × Succession cluster (view s.world).configs (view s'.world).configs
  reconcile-settles s ready =
      let (again, s', ws, ran, eq, (same, (settled, succession))) =
        (reconcile-Runs cluster.status (view s.world) (Succeeded cluster keeping (view s.world))
            ready.redkey (reconcile_running-Settles cluster keeping (view s.world) ready)).at
          s refl in
      (s', ran ∙ ap (λ x. (ok x, s')) same, settled, succession)

  module _ (v : Stored T) (settled : Settled cluster keeping v) where
    -- A settled state with another status that names the generation.
    still-Settled :
        (status : RedkeyStatus T)
        → status.observed_generation ≡ cluster.meta.generation
        → Settled cluster keeping (record v { redkey = some (record cluster { status = status }) })
    still-Settled status observed = record {
      status = status;
      observed = observed;
      redkey = refl;
      placed = Placed-over cluster keeping v _ v.configs settled.placed;
      orderly = settled.orderly;
      clean = settled.clean;
    }

  -- A reconcile of a settled server sends one write, the status aggregated from the active config,
  -- and leaves the server settled.
  pub reconcile-Settled :
      (s : State K) (settled : Settled cluster keeping (view s.world))
      → (s' : State K) × (active : RedkeyConfig T) × (t : Time) × ((reconcile K interval
              (own_key cluster)).run
            s
          ≡ (ok (some interval), s'))
        × (s'.sent
            ≡ s.sent
              ++ update_status (refreshed K (record cluster { status = settled.status }) active t)
                ∷ [])
        × (select_active_config (listed (view s.world)) ≡ some active)
        × Settled cluster keeping (view s'.world)
  reconcile-Settled s settled =
      let v = view s.world in
      let (again, s', ws, ran, eq, (same, (active, chosen, (status, observed, now, t, one)))) =
        (reconcile-Runs settled.status v _ settled.redkey
            (reconcile_running-Again cluster keeping v settled)).at
          s refl in
      (
        s',
        active,
        t,
        ran ∙ ap (λ x. (ok x, s')) same,
        eq ∙ ap (λ xs. s.sent ++ xs) one,
        chosen,
        subst (Settled cluster keeping) (sym now) (still-Settled v settled status observed),
      )

-- The reconcile is called n times in a row.
abbrev pub reconciles : {T : Types} (K : Env T) → Time → NamespacedName → ℕ → Action K (Unit {0})
reconciles K interval key zero = pure tt
reconciles K interval key (suc n) = reconcile K interval key >> reconciles K interval key n

-- A write of the status of one cluster.
abbrev pub WritesStatus : {T : Types} → Redkey T → Write T → Type 0
WritesStatus {T} cluster w =
    (status : RedkeyStatus T) × (w ≡ update_status (record cluster { status = status }))

module _ {T : Types} {K : Env T} {view : K.World → Stored T} (cluster : Redkey T)
    (keeping : Keeping K view cluster) (interval : Time)
    (some_primaries : eqb_ℤ cluster.spec.primaries (pos 0) ≡ false) where
  reconciles-Settled :
      (n : ℕ) (s : State K)
      → Settled cluster keeping (view s.world)
      → (s' : State K) × (ws : List (Write T)) × ((reconciles K interval (own_key cluster) n).run s
          ≡ (ok tt, s'))
        × (s'.sent ≡ s.sent ++ ws)
        × (length ws ≡ n)
        × All (WritesStatus cluster) ws
        × Settled cluster keeping (view s'.world)
  unfolding ◌>>=◌ pure
  reconciles-Settled zero s settled = (s, [], refl, sym (append-nil s.sent), refl, tt, settled)
  reconciles-Settled (suc n) s settled =
      let (s1, active, t, ran, eq, chosen, settled1) =
        reconcile-Settled cluster keeping interval some_primaries s settled in
      let (s2, ws, ran2, eq2, count, each, settled2) = reconciles-Settled n s1 settled1 in
      let w = update_status (refreshed K (record cluster { status = settled.status }) active t) in
      (
        s2,
        w ∷ ws,
        ap (continue (λ again. reconciles K interval (own_key cluster) n)) ran ∙ ran2,
        eq2 ∙ (ap (λ xs. xs ++ ws) eq ∙ append_assoc s.sent (w ∷ []) ws),
        ap suc count,
        ((_, refl), each),
        settled2,
      )

  -- On a server that keeps what it is sent, answers truthfully and grants every request, while nobody
  -- else changes the objects of a Redkey with primaries: after one reconcile any number of further
  -- ones succeed and send, in all, as many writes, each of them of the Redkey's status. At first its
  -- configs bear the names and distinct sequence numbers that createNewConfig gives, none of them at
  -- the end of the int64 range. The Redkey can own its objects, the desired Deployment's annotations
  -- do not name the revision, and the helpers obey the laws on retries, owners and equality.
  pub reconcile-converges :
      (s : State K) (n : ℕ)
      → Ready cluster keeping (view s.world)
      → (s1 : State K) × (s2 : State K) × (ws : List (Write T)) × ((reconcile K interval
              (own_key cluster)).run
            s
          ≡ (ok (some interval), s1))
        × ((reconciles K interval (own_key cluster) n).run s1 ≡ (ok tt, s2))
        × (s2.sent ≡ s1.sent ++ ws)
        × (length ws ≡ n)
        × All (WritesStatus cluster) ws
  reconcile-converges s n ready =
      let (s1, ran, settled, succession) =
        reconcile-settles cluster keeping interval some_primaries s ready in
      let (s2, ws, ran2, eq, count, each, settled2) = reconciles-Settled n s1 settled in
      (s1, s2, ws, ran, ran2, eq, count, each)
