-- ===== src/Manager/Sweep/Whole.antt =====
-- resource/manager.py: what `sweep_once` does to a registered kernel.
use loommux.Prelude.{
  Option, ◌∙◌, Bool, sym, refl, Bool-cases, if◌then◌else◌, subst, inr, inl, text_eq_iff,
  text_eq_refl, ◌⊎◌, ◌+◌, ◌≢◌, arith, ◌==◌, or_else, ◌<◌, ◌↔◌, ◌∷◌, ◌≡◌, text_is_eq, Text, ℕ, [],
  false, true, some, none,
}
use loommux.Manager.Sweep.{settle_all, retires, anchored, is_idle, sweep_clients, sweep}
use loommux.Manager.State.{Ref, IsSound, Manager}
use loommux.Manager.Sweep.Retire.{
  stays, settle_all-outcome, settle_all-IsSound, Registered, NoRepeat,
}
use loommux.Prelude.Dict.{any-values, Distinct, get, Dict, All-values, values}
use loommux.Manager.Sweep.Sound.{sweep_clients-Released, Released-IsSound}
use loommux.Prelude.Lists.{All, any}
use loommux.Manager.Sweep.Anchored.{anchored_iff, Anchored}
use loommux.Connections.{elem}

module _ (m : Manager) (s : IsSound m) where
  values_differ :
      (k : Text) (r : Ref) (d : Dict Text Ref)
      → Distinct d
      → ((id : Text) (q : Ref) → get d id ≡ some q → (m.heap q).resource_id ≡ id)
      → (m.heap r).resource_id ≡ k
      → get d k ≡ none
      → All (λ q. q ≢ r) (values d)
  values_differ k r d distinct ids id absent =
      All-values (λ q. q ≢ r) d distinct λ j q found e. ground (arith, ids j q found)

  values-NoRepeat :
      (d : Dict Text Ref)
      → Distinct d
      → ((id : Text) (q : Ref) → get d id ≡ some q → (m.heap q).resource_id ≡ id)
      → NoRepeat (values d)
  unfolding values get
  values-NoRepeat [] distinct ids = tt
  values-NoRepeat ((k, r) ∷ d) distinct ids =
      let here : (m.heap r).resource_id ≡ k = ids k r (ground (arith, text_eq_refl k)) in
      let below : (id : Text) (q : Ref) → get d id ≡ some q → (m.heap q).resource_id ≡ id =
        λ id q h. ids id q (ground (arith, text_eq_iff k id, distinct.0)) in
      (values_differ k r d distinct.1 below here distinct.0, values-NoRepeat d distinct.1 below)

  once : NoRepeat (values m.by_id)
  once = values-NoRepeat m.by_id s.registry.ids_distinct s.registry.id_of

  all-Registered : Registered m (values m.by_id)
  all-Registered =
      All-values (λ q. get m.by_id (m.heap q).resource_id ≡ some q) m.by_id s.registry.ids_distinct
        λ k q found. rw (s.registry.id_of k q found) found

  met :
      (r : Ref)
      → get m.by_id (m.heap r).resource_id ≡ some r
      → any (λ q. q == r) (values m.by_id) ≡ true
  met r here = any-values (λ q. q == r) m.by_id (m.heap r).resource_id r here (ground arith)

-- A sweep keeps the registry sound.
pub sweep-IsSound : (m : Manager) (now : ℕ) → IsSound m → IsSound (sweep m now)
unfolding sweep
sweep-IsSound m now s =
    let m' = sweep_clients m now in
    let s' = Released-IsSound m m' (sweep_clients-Released m now) s in
    settle_all-IsSound m' (anchored m' now) now (values m'.by_id) s' (once m' s')
      (all-Registered m' s')

-- A kernel at work, or within the grace since nothing anchors it.
abbrev pub Busy : Manager → ℕ → Ref → Type 0
Busy m now r =
    (is_idle (m.heap r) ≡ false) × (now < or_else (m.heap r).orphaned_at now + m.orphan_grace)

busy_before :
    (m : Manager) (now : ℕ) (r : Ref) → is_idle ((sweep_clients m now).heap r) ≡ is_idle (m.heap r)
unfolding is_idle
busy_before m now r =
    let h = sweep_clients-Released m now in ground (arith, h.active r, h.session r)

stays_iff :
    (m : Manager) (now : ℕ) (r : Ref)
    → IsSound m
    → get m.by_id (m.heap r).resource_id ≡ some r
    → (stays m.orphan_grace (anchored m now) now (m.heap r) ≡ true)
      ↔ (Anchored m now r ⊎ Busy m now r)
unfolding retires
stays_iff m now r s here =
    let (to, from) = anchored_iff m now s r here in
    (
      λ h. elim (Bool-cases (elem (m.heap r).resource_id (anchored m now))) [
        | inl e ↦ inl (to e)
        | inr e ↦ inr (ground arith)
      ],
      λ h. elim h [ inl a ↦ ground (arith, from a) | inr b ↦ ground arith ],
    )

if_some :
    (b : Bool) (r : Ref) (o : Option Ref)
    → o ≡ (if b then some r else none)
    → (o ≡ some r) ↔ (b ≡ true)
if_some true r o e = (λ h. refl, λ h. e)
if_some false r o e = (λ h. ground (arith, e, h), λ h. ground (arith, h))

-- Time at work and without an anchor are as they were before the leases were swept.
Busy-iff : (m : Manager) (now : ℕ) (r : Ref) → Busy (sweep_clients m now) now r ↔ Busy m now r
Busy-iff m now r =
    let h = sweep_clients-Released m now in
    let busy = busy_before m now r in
    let since = h.orphaned_at r in
    let grace = h.same_grace in
    (
      λ b. (
        sym busy ∙ b.0,
        subst (λ o. now < or_else o now + m.orphan_grace) since
            (subst (λ g. now < or_else ((sweep_clients m now).heap r).orphaned_at now + g) grace
              b.1),
      ),
      λ b. (
        busy ∙ b.0,
        subst (λ o. now < or_else o now + (sweep_clients m now).orphan_grace) (sym since)
            (subst (λ g. now < or_else (m.heap r).orphaned_at now + g) (sym grace) b.1),
      ),
    )

-- After the leases are swept, a registered kernel stays exactly if it is anchored then, or is at
-- work and has been without an anchor for less than the grace.
pub sweep_outcome :
    (m : Manager) (now : ℕ) (r : Ref)
    → IsSound m
    → get m.by_id (m.heap r).resource_id ≡ some r
    → (get (sweep m now).by_id (m.heap r).resource_id ≡ some r)
      ↔ (Anchored (sweep_clients m now) now r ⊎ Busy m now r)
unfolding sweep
sweep_outcome m now r s here =
    let h = sweep_clients-Released m now in
    let n = sweep_clients m now in
    let s' = Released-IsSound m n h s in
    let here' : get n.by_id (n.heap r).resource_id ≡ some r =
      ground (arith, h.same_ids, h.keeps.same_id r) in
    let outcome =
      settle_all-outcome n (anchored n now) now (values n.by_id) r s' (once n s')
        (all-Registered n s') here' (met n s' r here') in
    let (to, from) = stays_iff n now r s' here' in
    let id : (n.heap r).resource_id ≡ (m.heap r).resource_id = h.keeps.same_id r in
    let found =
      subst
        (λ i.
          get (settle_all n (anchored n now) now (values n.by_id)).by_id i
          ≡ (if stays n.orphan_grace (anchored n now) now (n.heap r) then some r else none))
        id outcome in
    let (in_, out) = if_some (stays n.orphan_grace (anchored n now) now (n.heap r)) r _ found in
    (
      λ e. elim (to (in_ e)) [ inl a ↦ inl a | inr b ↦ inr ((Busy-iff m now r).0 b) ],
      λ e. out (from (elim e [ inl a ↦ inl a | inr b ↦ inr ((Busy-iff m now r).1 b) ])),
    )
