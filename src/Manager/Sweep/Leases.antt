-- ===== src/Manager/Sweep/Leases.antt =====
-- resource/manager.py: which leases a sweep releases.
use loommux.Prelude.{
  ◌&&◌, ◌==◌, subst, Option-cases, ◌∙◌, false, Bool-cases, ◌∷◌, [], inr, inl, refl, text_eq_iff,
  text_is_eq, text_eq, arith, if◌then◌else◌, ap, Option, ◌≡◌, ℕ, Text, Bool, some, none,
}
use loommux.Manager.Sweep.{sweep_leases, is_released, assess, sweep_lease, report_alert}
use loommux.Connections.{first_sight, ConnectionRegistry, presence}
use loommux.Model.{
  renewable, connected, awaiting_stream, reconnecting, disconnected, alert, stream_lost, unbound,
  LeaseStanding, ClientLease, KernelResource,
}
use loommux.Prelude.Dict.{Dict, Distinct, get-remove, get-put, get}
use loommux.Liveness.{expired, assess_lease}

-- Meeting one session for the first time does not change how another is seen.
presence_again :
    (reg : ConnectionRegistry) (a b : Text) (now : ℕ)
    → (presence (presence reg a now).1 b now).0 ≡ (presence reg b now).0
unfolding presence
presence_again reg a b now = ground (arith, get-put reg a b (first_sight now), text_eq_iff a b)

assess_again :
    (reg : ConnectionRegistry) (named named' : Bool) (l k : ClientLease) (now : ℕ)
    → (assess (assess reg named l now).1 named' k now).0 ≡ (assess reg named' k now).0
unfolding assess
assess_again reg named named' l k now =
    ap (λ p. assess_lease k p named' now)
      (presence_again reg l.client.client_id k.client.client_id now)

-- What becomes of one lease.
pub survivor : ConnectionRegistry → Bool → ClientLease → ℕ → Option ClientLease
unfolding report_alert is_released
survivor reg named lease now =
    let v = (assess reg named lease now).0 in
    if is_released v lease now then none else some (report_alert v lease)

pub sweep_lease-get :
    (reg : ConnectionRegistry) (x : KernelResource) (id other : Text) (lease : ClientLease)
    (now : ℕ)
    → get (sweep_lease reg x id lease now).1.client_leases other
      ≡ (if text_eq id other then survivor reg x.named lease now else get x.client_leases other)
unfolding sweep_lease survivor
sweep_lease-get reg x id other lease now = ground (
  arith,
  get-remove x.client_leases id other,
  get-put x.client_leases id other (report_alert (assess reg x.named lease now).0 lease),
)

sweep_lease-named :
    (reg : ConnectionRegistry) (x : KernelResource) (id : Text) (lease : ClientLease) (now : ℕ)
    → (sweep_lease reg x id lease now).1.named ≡ x.named
unfolding sweep_lease
sweep_lease-named reg x id lease now = ground arith

survivor_again :
    (reg : ConnectionRegistry) (x : KernelResource) (id : Text) (l k : ClientLease) (now : ℕ)
    → survivor (sweep_lease reg x id l now).0 (sweep_lease reg x id l now).1.named k now
      ≡ survivor reg x.named k now
unfolding survivor sweep_lease
survivor_again reg x id l k now = rw (sweep_lease-named reg x id l now) (
    ap (λ v. if is_released v k now then none else some (report_alert v k))
      (assess_again reg x.named x.named l k now))

-- What a lookup finds after the loop: the survivor of the lease that the loop has met under this
-- key, or what was there.
abbrev pub swept :
    ConnectionRegistry → Bool → ℕ → Option ClientLease → Option ClientLease → Option ClientLease
swept reg named now none old = old
swept reg named now (some lease) old = survivor reg named lease now

swept_again :
    (reg : ConnectionRegistry) (x : KernelResource) (id client : Text) (l : ClientLease) (now : ℕ)
    (o : Option ClientLease)
    → text_eq id client ≡ false
    → swept
        (sweep_lease reg x id l now).0
        (sweep_lease reg x id l now).1.named
        now
        o
        (get (sweep_lease reg x id l now).1.client_leases client)
      ≡ swept reg x.named now o (get x.client_leases client)
swept_again reg x id client l now none differ = sweep_lease-get reg x id client l now ∙ rw differ
swept_again reg x id client l now (some k) differ = survivor_again reg x id l k now

get-sweep_leases :
    (reg : ConnectionRegistry) (x : KernelResource) (items : Dict Text ClientLease) (now : ℕ)
    (client : Text)
    → Distinct items
    → get (sweep_leases reg x items now).1.client_leases client
      ≡ swept reg x.named now (get items client) (get x.client_leases client)
unfolding sweep_leases get
get-sweep_leases reg x [] now client h = refl
get-sweep_leases reg x ((id, lease) ∷ items) now client h =
    let rest =
      get-sweep_leases (sweep_lease reg x id lease now).0 (sweep_lease reg x id lease now).1 items
        now client h.1 in
    elim (Bool-cases (text_eq id client)) [
      | inl same ↦
          let gone : get items client ≡ none =
            subst (λ c. get items c ≡ none) ((text_eq_iff id client).0 same) h.0 in
          rw (same, rest, gone, sweep_lease-get reg x id client lease now, same)
      | inr differ ↦
          rw (differ, rest) (swept_again reg x id client lease now (get items client) differ)
    ]

-- The alert that a lease reports, by its standing.
abbrev pub reported : LeaseStanding → Option LeaseStanding
reported unbound = some unbound
reported stream_lost = some stream_lost
reported _ = none

alert-reported : (s : LeaseStanding) → (if alert s then some s else none) ≡ reported s
unfolding alert
alert-reported renewable = refl
alert-reported connected = refl
alert-reported awaiting_stream = refl
alert-reported reconnecting = refl
alert-reported disconnected = refl
alert-reported unbound = refl
alert-reported stream_lost = refl

survivor_lem :
    (reg : ConnectionRegistry) (named : Bool) (lease : ClientLease) (now : ℕ)
    → let v = assess_lease lease (presence reg lease.client.client_id now).0 named now in
      survivor reg named lease now ≡ (
        if lease.active_operations == 0 && expired v now
        then none
        else some (record lease { reported_alert = reported v.standing }))
unfolding survivor assess is_released report_alert
survivor_lem reg named lease now =
    let v = assess_lease lease (presence reg lease.client.client_id now).0 named now in
    ap
      (λ a.
        if lease.active_operations == 0 && expired v now
        then none
        else some (record lease { reported_alert = a }))
      (alert-reported v.standing)

-- A sweep takes from a kernel exactly the leases that no operation runs under and that have expired, by
-- what is known of their session; any other stays as it was, with the alert that its standing calls for:
-- one for a stream that was never opened or was lost, and none for any other standing.
pub sweep_leases_exact :
    (reg : ConnectionRegistry) (x : KernelResource) (now : ℕ) (client : Text)
    → Distinct x.client_leases
    → get (sweep_leases reg x x.client_leases now).1.client_leases client
      ≡ elim (get x.client_leases client) [
        | none ↦ none
        | some lease ↦
            let v = assess_lease lease (presence reg lease.client.client_id now).0 x.named now in
            if lease.active_operations == 0 && expired v now
            then none
            else some (record lease { reported_alert = reported v.standing })
      ]
sweep_leases_exact reg x now client h = elim (Option-cases (get x.client_leases client)) [
  | inl e ↦ rw (get-sweep_leases reg x x.client_leases now client h, e)
  | inr (lease, e) ↦
      rw (get-sweep_leases reg x x.client_leases now client h, e)
        (survivor_lem reg x.named lease now)
]
