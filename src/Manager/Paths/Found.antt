-- ===== src/Manager/Paths/Found.antt =====
-- resource/manager.py: what a path names is registered.
use loommux.Prelude.{
  ap, ◌∙◌, Bool-cases, ◌∷◌, Option-cases, arith, text_is_eq, ◌≡◌, List, Option, Text, [], inr, inl,
  refl, some, none,
}
use loommux.Manager.State.{kernel_not_found, IsSound, Ref, Manager}
use loommux.Manager.Paths.{
  strip_slashes, split_slashes, is_slash, Resolved, resolve, resolve_name, scope_of, resolve_parts,
  lookup,
}
use loommux.Prelude.Dict.{get}
use loommux.Model.Keys.{resource_key-injective, HomeOk}
use loommux.Model.{resource_key}
use loommux.Prelude.Result.{or_raise-ok, ok-injective, ◌>>=◌, or_raise, bind-ok, ok}
use loommux.Prelude.Lists.{any}

-- A registered main kernel.
abbrev pub IsMain : Manager → Ref → Type 0
IsMain m r = (get m.by_id (m.heap r).resource_id ≡ some r) × ((m.heap r).home ≡ none)

by_key-found :
    (m : Manager) (name : Text) (home : Option Text) (r : Ref)
    → IsSound m
    → HomeOk home
    → get m.by_key (resource_key name home) ≡ some r
    → (get m.by_id (m.heap r).resource_id ≡ some r) × ((m.heap r).home ≡ home)
by_key-found m name home r s scope e = (
  s.registry.in_ids _ r e,
  (resource_key-injective (m.heap r).name name (m.heap r).home home (s.registry.homes r) scope
      (s.registry.key_of _ r e)).1,
)

by_id-found :
    (m : Manager) (id : Text) (r : Ref)
    → IsSound m
    → get m.by_id id ≡ some r
    → get m.by_id (m.heap r).resource_id ≡ some r
by_id-found m id r s e = rw (s.registry.id_of id r e) e

parts-found :
    (m : Manager) (parts : List Text) (r : Ref) (scope : Option Ref) (name : Text)
    → IsSound m
    → resolve_parts m parts ≡ ok (some r, scope, name)
    → get m.by_id (m.heap r).resource_id ≡ some r
unfolding resolve_parts
parts-found m [] r scope name s e = ground arith
parts-found m (p ∷ []) r scope name s e = ground (arith, by_key-found m p none r s tt)
parts-found m (p ∷ q ∷ []) r scope name s e =
    elim (Option-cases (get m.by_key (resource_key p none))) [
      | inl absent ↦ ground arith
      | inr (main, found) ↦
          ground
            (arith, by_key-found m q (some (m.heap main).resource_id) r s (s.registry.ids main))
    ]
parts-found m (p ∷ q ∷ t ∷ parts) r scope name s e = ground arith

name-found :
    (m : Manager) (path : Text) (at : Option Ref) (r : Ref) (scope : Option Ref) (name : Text)
    → IsSound m
    → ((q : Ref) → at ≡ some q → get m.by_id (m.heap q).resource_id ≡ some q)
    → resolve_name m path at ≡ (some r, scope, name)
    → get m.by_id (m.heap r).resource_id ≡ some r
unfolding resolve_name
name-found m path none r scope name s there e = ground (arith, by_key-found m path none r s tt)
name-found m path (some q) r scope name s there e =
    ground (
      arith,
      there q refl,
      by_key-found m path (some (m.heap q).resource_id) r s (s.registry.ids q),
    )

scope-found :
    (m : Manager) (context : Option Text) (at : Option Ref) (q : Ref)
    → IsSound m
    → scope_of m context ≡ ok at
    → at ≡ some q
    → get m.by_id (m.heap q).resource_id ≡ some q
unfolding scope_of
scope-found m none at q s e h = ground arith
scope-found m (some id) at q s e h = elim (Option-cases (get m.by_id id)) [
  | inl absent ↦ ground arith
  | inr (c, found) ↦ elim (Option-cases (m.heap c).home) [
    | inl main ↦ ground (arith, by_id-found m id c s found)
    | inr (home, child) ↦ elim (Option-cases (get m.by_id home)) [
      | inl absent ↦ ground arith
      | inr (p, there) ↦ ground (arith, by_id-found m home p s there)
    ]
  ]
]

bare-found :
    (m : Manager) (path : Text) (context : Option Text) (x : Resolved) (r : Ref)
    → IsSound m
    → (scope_of m context >>= λ at. ok (resolve_name m path at)) ≡ ok x
    → x.0 ≡ some r
    → get m.by_id (m.heap r).resource_id ≡ some r
bare-found m path context x r s e h =
    let (at, scoped, named) =
      bind-ok (scope_of m context) (λ at. ok (resolve_name m path at)) x e in
    name-found m path at r x.1 x.2 s (λ q. scope-found m context at q s scoped)
      (ok-injective named ∙ ap (λ o. (o, x.1, x.2)) h)

resolve-found :
    (m : Manager) (path : Text) (context : Option Text) (x : Resolved) (r : Ref)
    → IsSound m
    → resolve m path context ≡ ok x
    → x.0 ≡ some r
    → get m.by_id (m.heap r).resource_id ≡ some r
unfolding resolve
resolve-found m path context x r s e h = elim (Option-cases (get m.by_id path)) [
  | inr (q, found) ↦ ground (arith, by_id-found m path q s found)
  | inl absent ↦ elim (Bool-cases (any is_slash path)) [
    | inl slashed ↦
        let whole : resolve_parts m (split_slashes (strip_slashes path)) ≡ ok x = ground arith in
        parts-found m _ r x.1 x.2 s (whole ∙ ap (λ o. ok (o, x.1, x.2)) h)
    | inr bare ↦ bare-found m path context x r s (ground arith) h
  ]
]

-- A kernel that a path or an id names, read from any kernel, is registered: no lookup finds one that
-- has been retired.
pub lookup-found :
    (m : Manager) (path : Text) (context : Option Text) (r : Ref)
    → IsSound m
    → lookup m path context ≡ ok r
    → get m.by_id (m.heap r).resource_id ≡ some r
unfolding lookup
lookup-found m path context r s e =
    let (x, resolved, found) =
      bind-ok (resolve m path context) (λ x. or_raise x.0 kernel_not_found) r e in
    resolve-found m path context x r s resolved (or_raise-ok x.0 kernel_not_found r found)
