-- ===== src/Reconcile/Interplay.antt =====
-- The operator, the user, Robin and anybody who touches Robin's objects, at work on one server in turn.
use redkey_operator.Common.{
  ℕ, suc, ◌<◌, false, Option, none, some, [], ◌≡◌, refl, sym, ap, subst, ◌∙◌, arith,
}
use redkey_operator.Common.Int.{pos, eqb_ℤ, two_63}
use redkey_operator.Common.GoMap.{lookup}
use redkey_operator.Api.Types.{Types, Time}
use redkey_operator.Api.Meta.{NamespacedName}
use redkey_operator.Api.Redkey.{Redkey, RedkeyStatus, own_key}
use redkey_operator.Kube.Client.{Result, Error, ok}
use redkey_operator.Kube.Action.{Env, State}
use redkey_operator.Kube.Stored.{Stored}
use redkey_operator.Robin.Annotations.{deployment_revision_annotation}
use redkey_operator.Robin.Deployment.{build_desired_robin_deployment}
use redkey_operator.Config.Orderly.Counted.{
  Counted, Counted-Numbered, Counted-Succession, Counted-own_key, Reported, Counted-Reported,
}
use redkey_operator.Reconcile.{reconcile}
use redkey_operator.Reconcile.Settles.{Keeping, Settled}
use redkey_operator.Reconcile.Converges.{reconcile-settles}

module _ {T : Types} (key : NamespacedName) where
  -- The Redkeys under the key that have primaries and ask for no annotation under the name of the one
  -- that Kubernetes writes.
  pub record Allowed (c : Redkey T) : Type 0 where
    pub own : own_key c ≡ key
    pub some_primaries : eqb_ℤ c.spec.primaries (pos 0) ≡ false
    pub unmanaged :
        lookup deployment_revision_annotation (build_desired_robin_deployment c).meta.annotations
        ≡ none

  Allowed-status :
      (c : Redkey T) (status : RedkeyStatus T) → Allowed c → Allowed (record c { status = status })
  unfolding build_desired_robin_deployment
  Allowed-status c status a = record {
    own = a.own;
    some_primaries = a.some_primaries;
    unmanaged = a.unmanaged;
  }

  -- What holds of the server after `n` reconciles.
  pub record Tidy (n : ℕ) (v : Stored T) : Type 0 where
    pub cluster : Redkey T
    pub redkey : v.redkey ≡ some cluster
    pub allowed : Allowed cluster
    pub counted : Counted cluster n v.configs

module _ {T : Types} (K : Env T) (view : K.World → Stored T) (key : NamespacedName)
    (interval : Time) where
  -- One step, with the number of reconciles before and after it. A reconcile runs from any state of
  -- the process with that server. The user may change the Redkey, Robin the statuses of the
  -- configs, and anybody Robin's objects, in any way.
  pub data Step : ℕ → Stored T → ℕ → Stored T → Type 0 where
    reconciled :
        {n : ℕ} {v v' : Stored T} (s s' : State K) (r : Result (Error K.ApiError) (Option Time))
        → view s.world ≡ v
        → (reconcile K interval key).run s ≡ (r, s')
        → view s'.world ≡ v'
        → Step n v (suc n) v'
    edited :
        {n : ℕ} {v v' : Stored T} (c : Redkey T)
        → Allowed key c
        → v' ≡ record v { redkey = some c }
        → Step n v n v'
    reported :
        {n : ℕ} {v v' : Stored T}
        → Reported v.configs v'.configs
        → v' ≡ record v { configs = v'.configs }
        → Step n v n v'
    meddled :
        {n : ℕ} {v v' : Stored T} → v'.redkey ≡ v.redkey → v'.configs ≡ v.configs → Step n v n v'

  -- The servers that are reached from one with a Redkey and no configs.
  pub data Reach : ℕ → Stored T → Type 0 where
    start :
        {v : Stored T} (c : Redkey T)
        → v.redkey ≡ some c
        → Allowed key c
        → v.configs ≡ []
        → Reach 0 v
    next : {n m : ℕ} {v v' : Stored T} → Reach n v → Step n v m v' → Reach m v'

module _ {T : Types} {K : Env T} {view : K.World → Stored T} (key : NamespacedName)
    (interval : Time) (keeping : (c : Redkey T) → Allowed key c → Keeping K view c) where
  -- A reconcile of a tidy server settles it, and leaves it tidy.
  reconcile-Tidy :
      (n : ℕ) (s : State K) (tidy : Tidy key n (view s.world))
      → suc n < two_63
      → (s' : State K) × ((reconcile K interval key).run s ≡ (ok (some interval), s'))
        × Settled tidy.cluster (keeping tidy.cluster tidy.allowed) (view s'.world)
        × Tidy key (suc n) (view s'.world)
  reconcile-Tidy n s tidy room =
      let c = tidy.cluster in
      let keep = keeping c tidy.allowed in
      let (s', ran, settled, succession) =
        reconcile-settles c keep interval tidy.allowed.some_primaries s (record {
          redkey = tidy.redkey;
          numbered = Counted-Numbered c n (view s.world).configs room tidy.counted;
        }) in
      (
        s',
        subst (λ k. (reconcile K interval k).run s ≡ (ok (some interval), s')) tidy.allowed.own ran,
        settled,
        record {
          cluster = record c { status = settled.status };
          redkey = settled.redkey;
          allowed = Allowed-status key c settled.status tidy.allowed;
          counted =
              Counted-own_key c (record c { status = settled.status }) (suc n) _ refl
                (Counted-Succession c n (view s.world) _ room tidy.counted succession);
        },
      )

  Step-Tidy :
      {n m : ℕ} {v v' : Stored T}
      → Step K view key interval n v m v'
      → m < two_63
      → Tidy key n v
      → Tidy key m v'
  Step-Tidy {n} (reconciled s s' r here ran there) room tidy =
      let (s1, ran1, settled, tidy1) =
        reconcile-Tidy n s (subst (Tidy key n) (sym here) tidy) room in
      subst (Tidy key (suc n)) (ap (λ o. view o.1.world) (sym ran1 ∙ ran) ∙ there) tidy1
  Step-Tidy {n} {v = v} (edited c allowed e) room tidy = subst (Tidy key n) (sym e) (record {
    cluster = c;
    redkey = refl;
    allowed = allowed;
    counted =
        Counted-own_key tidy.cluster c n v.configs (allowed.own ∙ sym tidy.allowed.own)
          tidy.counted;
  })
  Step-Tidy {n} {v = v} {v' = v'} (reported statuses e) room tidy = record {
    cluster = tidy.cluster;
    redkey = ap (λ (x : Stored T). x.redkey) e ∙ tidy.redkey;
    allowed = tidy.allowed;
    counted = Counted-Reported tidy.cluster n v.configs v'.configs statuses tidy.counted;
  }
  Step-Tidy {n} (meddled redkey configs) room tidy = record {
    cluster = tidy.cluster;
    redkey = redkey ∙ tidy.redkey;
    allowed = tidy.allowed;
    counted = subst (Counted tidy.cluster n) (sym configs) tidy.counted;
  }

  not_fewer :
      {n m : ℕ} {v v' : Stored T} → Step K view key interval n v m v' → m < two_63 → n < two_63
  not_fewer (reconciled s s' r here ran there) room = omega (arith, room)
  not_fewer (edited c allowed e) room = room
  not_fewer (reported statuses e) room = room
  not_fewer (meddled redkey configs) room = room

  -- The operator's reconciles, edits of the Redkey by the user, reports of Robin in the statuses of
  -- the configs and changes of Robin's objects by anybody take turns, from a Redkey without configs,
  -- and no reconcile is interrupted. Then in every state that fewer than 2^63 reconciles lead to,
  -- the Redkey is one that the user may ask for, every config bears the name that createNewConfig
  -- gives to its sequence number, no two have one sequence number, and these run from 1 to at most
  -- the number of reconciles so far. The server keeps what it is sent and grants every request, the
  -- Redkey keeps primaries and can own its objects, its annotations do not name the revision, and
  -- the helpers obey the laws on retries, owners and equality.
  pub Reach-Tidy :
      {n : ℕ} {v : Stored T} → Reach K view key interval n v → n < two_63 → Tidy key n v
  Reach-Tidy (start c redkey allowed none_yet) room = record {
    cluster = c;
    redkey = redkey;
    allowed = allowed;
    counted =
        subst (Counted c 0) (sym none_yet)
          (record { sequences = tt; names = tt; namespaces = tt; bounds = tt });
  }
  Reach-Tidy (next r step) room = Step-Tidy step room (Reach-Tidy r (not_fewer step room))

  -- The operator's reconciles, edits of the Redkey by the user, reports of Robin in the statuses of
  -- the configs and changes of Robin's objects by anybody take turns, from a Redkey without configs,
  -- and no reconcile is interrupted. Then from every state that these lead to with fewer than
  -- 2^63 - 1 reconciles, a reconcile succeeds, asks to be called again and settles the Redkey that is
  -- there: Robin's objects are there and right, the status names the generation, there is a config,
  -- and none but possibly the oldest is Applied. The state after it is again one that they lead to.
  -- The server keeps what it is sent and grants every request, the Redkey keeps primaries and can
  -- own its objects, its annotations do not name the revision, and the helpers obey the laws on
  -- retries, owners and equality.
  pub Reach-settles :
      (n : ℕ) (s : State K)
      → Reach K view key interval n (view s.world)
      → suc n < two_63
      → (c : Redkey T) × (allowed : Allowed key c) × (s' : State K) × ((view s.world).redkey
          ≡ some c)
        × ((reconcile K interval key).run s ≡ (ok (some interval), s'))
        × Settled c (keeping c allowed) (view s'.world)
        × Reach K view key interval (suc n) (view s'.world)
  Reach-settles n s r room =
      let tidy = Reach-Tidy r (omega (arith, room)) in
      let (s', ran, settled, tidy') = reconcile-Tidy n s tidy room in
      (
        tidy.cluster,
        tidy.allowed,
        s',
        tidy.redkey,
        ran,
        settled,
        next r (reconciled s s' (ok (some interval)) refl ran refl),
      )
