-- ===== src/Manager/Claims/Chosen.antt =====
-- resource/manager.py: what `_session_kernel` chooses.
use loommux.Prelude.{
  Bool-cases, refl, Option-cases, inr, inl, arith, ◌↔◌, text_is_eq, ◌≡◌, Option, Text, false, some,
  none,
}
use loommux.Manager.Claims.{is_join, Choice, choose_from, choose_named, settled, choose}
use loommux.Manager.State.{
  bound-some, ManagerError, bound, IsSound, IsRegistry, Ref, Manager, main_kernel,
}
use loommux.Model.{resource_key, BindingKind, KernelRequest, LeaseClient}
use loommux.Prelude.Dict.{get}
use loommux.Prelude.Result.{Result, ok}
use loommux.Manager.Admit.{switching}
use loommux.Model.Keys.{resource_key-injective}

by_key-main :
    (m : Manager) (name : Text) (r : Ref)
    → IsRegistry m
    → get m.by_key (resource_key name none) ≡ some r
    → ((m.heap r).home ≡ none) × (get m.by_id (m.heap r).resource_id ≡ some r)
by_key-main m name r v e = (
  (resource_key-injective (m.heap r).name name (m.heap r).home none (v.homes r) tt
      (v.key_of _ r e)).1,
  v.in_ids _ r e,
)

main_kernel-main :
    (m : Manager) (name : Text) (r : Ref)
    → IsRegistry m
    → main_kernel m name ≡ some r
    → ((m.heap r).home ≡ none) × (get m.by_id (m.heap r).resource_id ≡ some r)
unfolding main_kernel
main_kernel-main m name r v e = elim (Option-cases (get m.by_id name)) [
  | inl absent ↦ by_key-main m name r v (ground arith)
  | inr (q, found) ↦ elim (Option-cases (m.heap q).home) [
    | inl main ↦ ground (arith, v.id_of name q)
    | inr (h, child) ↦ by_key-main m name r v (ground arith)
  ]
]

choose_named-settled :
    (m m' : Manager) (at : Option Ref) (request : KernelRequest) (r : Ref)
    (kind : Option BindingKind)
    → IsRegistry m
    → choose_named m at request ≡ ok (settled r kind, m')
    → (m' ≡ m)
      × ((m.heap r).home ≡ none)
      × (get m.by_id (m.heap r).resource_id ≡ some r)
      × ((kind ≡ none) ↔ (at ≡ some r))
unfolding choose_named
choose_named-settled m m' at request r kind v e = elim (Option-cases (main_kernel m request.name)) [
  | inl absent ↦ ground arith
  | inr (q, found) ↦ ground (arith, main_kernel-main m request.name q v found)
]

-- A session that works in a main kernel stays there unless it asks, with --attach, to move.
pub choose_stays :
    (m : Manager) (client : LeaseClient) (request : Option KernelRequest) (b : Ref)
    → m.stopping ≡ false
    → bound m client.client_id ≡ some b
    → switching request ≡ false
    → choose m client request ≡ ok (settled b none, m)
unfolding choose
choose_stays m client none b live at stays = ground arith
choose_stays m client (some request) b live at stays = ground arith

stays :
    (m m' : Manager) (client : LeaseClient) (b r : Ref) (kind : Option BindingKind)
    → IsSound m
    → bound m client.client_id ≡ some b
    → ◌≡◌ {A = Result ManagerError (Choice × Manager)}
        (ok (settled b none, m))
        (ok (settled r kind, m'))
    → (m' ≡ m)
      × ((m.heap r).home ≡ none)
      × (get m.by_id (m.heap r).resource_id ≡ some r)
      × ((kind ≡ none) ↔ (◌≡◌ {A = Option Ref} (some b) (some r)))
stays m m' client b r kind s at e =
    let (there, held) = bound-some m client.client_id b s.registry at in
    ground (arith, s.leased.main_only (m.heap b).resource_id client.client_id b there held)

choose_from-settled :
    (m m' : Manager) (client : LeaseClient) (request : Option KernelRequest) (at : Option Ref)
    (r : Ref) (kind : Option BindingKind)
    → IsSound m
    → bound m client.client_id ≡ at
    → choose_from m client request at ≡ ok (settled r kind, m')
    → (m' ≡ m)
      × ((m.heap r).home ≡ none)
      × (get m.by_id (m.heap r).resource_id ≡ some r)
      × ((kind ≡ none) ↔ (at ≡ some r))
unfolding choose_from
choose_from-settled m m' client none none r kind s at e = ground arith
choose_from-settled m m' client none (some b) r kind s at e = stays m m' client b r kind s at e
choose_from-settled m m' client (some request) none r kind s at e =
    choose_named-settled m m' none request r kind s.registry e
choose_from-settled m m' client (some request) (some b) r kind s at e =
    elim (Bool-cases (is_join request.mode)) [
      | inl joins ↦ stays m m' client b r kind s at (ground arith)
      | inr attaches ↦ choose_named-settled m m' (some b) request r kind s.registry (ground arith)
    ]

-- A kernel that is chosen without a wait is a registered main kernel, nothing has changed, and the
-- session is told of it exactly if it is not the one where it works already.
pub choose-settled :
    (m m' : Manager) (client : LeaseClient) (request : Option KernelRequest) (r : Ref)
    (kind : Option BindingKind)
    → IsSound m
    → choose m client request ≡ ok (settled r kind, m')
    → (m' ≡ m)
      × ((m.heap r).home ≡ none)
      × (get m.by_id (m.heap r).resource_id ≡ some r)
      × ((kind ≡ none) ↔ (bound m client.client_id ≡ some r))
unfolding choose
choose-settled m m' client request r kind s e =
    choose_from-settled m m' client request (bound m client.client_id) r kind s refl (ground arith)
