-- ===== src/Manager/Admit/Sound.antt =====
-- resource/manager.py: an admission leaves the session in the kernel that it was admitted to, and
-- nobody else's kernel changes.
use loommux.Prelude.{
  if◌then◌else◌, subst, ◌⊎◌, ◌≢◌, ◌↔◌, Option, ◌==◌, text_eq_iff, Bool-cases, text_is_eq,
  Option-cases, text_eq, arith, Text, ◌≡◌, inr, inl, false, some, none,
}
use loommux.Manager.State.{
  Keeps-IsReserved, registered_at, IsSound, Keeps-IsRegistry, bound-some, bound-none, bound_congr,
  IsAlive, Keeps, bound, IsLeased, IsRegistry, Ref, Manager,
}
use loommux.Model.{Binding, BindingKind, KernelRequest, Instant, LeaseClient}
use loommux.Policy.{LeasePolicy}
use loommux.Prelude.Dict.{has, get}
use loommux.Manager.Admit.{switching, admit, admitted}
use loommux.Manager.Admit.Holds.{holds-admitted, others_stay, admitted-Keeps}

module _ (m : Manager) (client : LeaseClient) (policy : LeasePolicy) (r : Ref) (now : Instant)
    (v : IsRegistry m) (l : IsLeased m) (here : get m.by_id (m.heap r).resource_id ≡ some r)
    (main : (m.heap r).home ≡ none) where
  abbrev after : Manager
  after = admitted m client policy r now

  keeps : Keeps m after
  keeps = admitted-Keeps m client policy r now v l here

  found_before : (id : Text) (q : Ref) → get after.by_id id ≡ some q → get m.by_id id ≡ some q
  found_before id q h = ground (arith, keeps.same_ids)

  wake-IsAlive : (q : Ref) → IsAlive (m.heap q) → IsAlive (after.heap q)
  unfolding admitted
  wake-IsAlive q a = ground arith

  mine :
      (id : Text) (q : Ref)
      → get m.by_id id ≡ some q
      → has (after.heap q).client_leases client.client_id ≡ (r == q)
  mine = holds-admitted m client policy r now v l here

  theirs :
      (q : Ref) (other : Text)
      → text_eq client.client_id other ≡ false
      → has (after.heap q).client_leases other ≡ has (m.heap q).client_leases other
  theirs = others_stay m client policy r now v l here

  admitted-IsLeased : IsLeased after
  admitted-IsLeased = record {
    main_only = λ id other q found held. elim (Bool-cases (text_eq client.client_id other)) [
      | inl same ↦ ground (
        arith,
        text_eq_iff client.client_id other,
        mine id q (found_before id q found),
        keeps.same_home q,
      )
      | inr differ ↦ ground (
        arith,
        theirs q other differ,
        l.main_only id other q (found_before id q found),
        keeps.same_home q,
      )
    ];
    one_lease = λ other id id' p q found found' held held'.
        elim (Bool-cases (text_eq client.client_id other)) [
          | inl same ↦ ground (
            arith,
            text_eq_iff client.client_id other,
            mine id p (found_before id p found),
            mine id' q (found_before id' q found'),
          )
          | inr differ ↦ ground (
            arith,
            theirs p other differ,
            theirs q other differ,
            l.one_lease other id id' p q (found_before id p found) (found_before id' q found'),
          )
        ];
    alive = λ id q found. wake-IsAlive q (l.alive id q (found_before id q found));
  }

  here_after : get after.by_id (after.heap r).resource_id ≡ some r
  here_after = ground (arith, keeps.same_ids, keeps.same_id r, here)

  bound-admitted : bound after client.client_id ≡ some r
  bound-admitted = elim (Option-cases (bound after client.client_id)) [
    | inl e ↦ ground (arith, bound-none after client.client_id _ r e here_after, mine _ r here)
    | inr (q, e) ↦
        let (there, held) =
          bound-some after client.client_id q (Keeps-IsRegistry m after keeps v) e in
        ground (arith, mine _ q (found_before _ q there))
  ]

  bound-admitted_others :
      (other : Text) → text_eq client.client_id other ≡ false → bound after other ≡ bound m other
  bound-admitted_others other ne = bound_congr m after other keeps.same_ids (λ q. theirs q other ne)

-- An admission to a main kernel keeps the registry sound. After it the session works in that kernel,
-- and every other session works where it did.
pub admit-IsSound :
    (m m' : Manager) (client : LeaseClient) (policy : LeasePolicy) (request : Option KernelRequest)
    (r : Ref) (kind : Option BindingKind) (now : Instant) (binding : Option Binding)
    → IsSound m
    → (m.heap r).home ≡ none
    → admit m client policy request r kind now ≡ some (m', binding)
    → IsSound m'
      × (bound m' client.client_id ≡ some r)
      × ((other : Text)
          → bound m' other ≡ (if text_eq client.client_id other then some r else bound m other))
unfolding admit
admit-IsSound m m' client policy request r kind now binding s main e =
    let here = registered_at m r (ground arith) in
    let k = admitted-Keeps m client policy r now s.registry s.leased here in
    let same : admitted m client policy r now ≡ m' = ground arith in
    subst
      (λ n.
        IsSound n
        × (bound n client.client_id ≡ some r)
        × ((other : Text)
            → bound n other ≡ (if text_eq client.client_id other then some r else bound m other)))
      same
      (
        record {
          registry = Keeps-IsRegistry m _ k s.registry;
          leased = admitted-IsLeased m client policy r now s.registry s.leased here main;
          reserved = Keeps-IsReserved m _ k s.reserved;
        },
        bound-admitted m client policy r now s.registry s.leased here main,
        λ other. elim (Bool-cases (text_eq client.client_id other)) [
          | inl same ↦ rw same (
              subst (λ c. bound (admitted m client policy r now) c ≡ some r)
                ((text_eq_iff client.client_id other).0 same)
                (bound-admitted m client policy r now s.registry s.leased here main))
          | inr differ ↦ rw differ (
              bound-admitted_others m client policy r now s.registry s.leased here main other
                differ)
        ],
      )

-- A call chooses again exactly when the kernel has left the registry, or the session works in
-- another one by now and did not ask to move.
pub admit_retries :
    (m : Manager) (client : LeaseClient) (policy : LeasePolicy) (request : Option KernelRequest)
    (r : Ref) (kind : Option BindingKind) (now : Instant)
    → (admit m client policy request r kind now ≡ none) ↔ (
        (get m.by_id (m.heap r).resource_id ≢ some r)
        ⊎ ((q : Ref) × (bound m client.client_id ≡ some q) × (q ≢ r) × (switching request ≡ false)))
unfolding admit
admit_retries m client policy request r kind now = (λ e. ground arith, λ h. ground arith)
