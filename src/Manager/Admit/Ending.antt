-- ===== src/Manager/Admit/Ending.antt =====
-- resource/manager.py: the end of an operation, renewals and the operations of programs keep the
-- registry sound, and the sessions where they are.
use loommux.Prelude.{
  ◌⊎◌, ◌+◌, false, true, some, none, subst, ℕ, text_is_eq, text_eq_iff, Option-cases, arith, refl,
  ◌≡◌, Text, inr, inl,
}
use loommux.Manager.State.{
  bound-some, assign-IsSound, assign, assign-Keeps, bound_congr, quiet-IsSound, IsAlive, Keeps,
  bound, Ref, IsSound, Manager,
}
use loommux.Manager.Admit.{
  record_request, program_end, program_begin, renew_client_lease, is_running, end_lease, finish,
}
use loommux.Model.{ClientLease, Instant}
use loommux.Prelude.Dict.{put, get-put, get, has}
use loommux.Prelude.Result.{ok}

module _ (m : Manager) (s : IsSound m) where
  finish_quiet :
      (client : Text) (r : Ref) (now : Instant) (q : Ref) (other : Text)
      → has ((finish m client r now).heap q).client_leases other
        ≡ has (m.heap q).client_leases other
  unfolding finish
  finish_quiet client r now q other = elim (Option-cases (get (m.heap r).client_leases client)) [
    | inl e ↦ ground arith
    | inr (lease, e) ↦ ground (
      arith,
      text_eq_iff client other,
      get-put (m.heap r).client_leases client other (end_lease now (is_running (m.heap r)) lease),
    )
  ]

  finish-Keeps : (client : Text) (r : Ref) (now : Instant) → Keeps m (finish m client r now)
  unfolding finish
  finish-Keeps client r now = record {
    same_ids = refl;
    same_keys = refl;
    same_next = refl;
    same_tasks = refl;
    same_id = λ q. ground arith;
    same_name = λ q. ground arith;
    same_home = λ q. ground arith;
  }

  finish-IsAlive :
      (client : Text) (r : Ref) (now : Instant) (q : Ref)
      → IsAlive (m.heap q)
      → IsAlive ((finish m client r now).heap q)
  unfolding finish
  finish-IsAlive client r now q a = ground arith

  -- The end of an operation, however it ends, keeps the registry sound and moves no session.
  pub finish-IsSound :
      (client : Text) (r : Ref) (now : Instant)
      → IsSound (finish m client r now)
        × ((other : Text) → bound (finish m client r now) other ≡ bound m other)
  finish-IsSound client r now =
      let k = finish-Keeps client r now in
      (
        quiet-IsSound m _ k (λ q other h. ground (arith, finish_quiet client r now q other))
            (λ id q found a. finish-IsAlive client r now q a) s,
        λ other. bound_congr m _ other k.same_ids (λ q. finish_quiet client r now q other),
      )

abbrev pub renewed : Manager → Text → Ref → ClientLease → Instant → Manager
renewed m client r lease now = assign m r (record (m.heap r) {
  client_leases = put (m.heap r).client_leases client (record_request now lease);
})

renewed-IsSound :
    (m : Manager) (client : Text) (r : Ref) (lease : ClientLease) (now : Instant)
    → IsSound m
    → get (m.heap r).client_leases client ≡ some lease
    → IsSound (renewed m client r lease now)
renewed-IsSound m client r lease now s found =
    quiet-IsSound m _ (assign-Keeps m r _ refl refl refl)
      (λ q c h. ground (
        arith,
        text_eq_iff client c,
        get-put (m.heap r).client_leases client c (record_request now lease),
      ))
      (λ id q f a. ground arith) s

-- A renewal succeeds exactly if the session has a lease, moves no session, and changes nothing if it
-- has none. After a renewal the lease on the session's kernel is the old one, requested and renewed now.
pub renew_lem :
    (m : Manager) (client : Text) (now : Instant)
    → IsSound m
    → ((bound m client ≡ none) × (renew_client_lease m client now ≡ (false, m)))
      ⊎ ((r : Ref) × (lease : ClientLease) × (bound m client ≡ some r)
          × (get (m.heap r).client_leases client ≡ some lease)
          × (renew_client_lease m client now ≡ (true, renewed m client r lease now)))
unfolding renew_client_lease
renew_lem m client now s = elim (Option-cases (bound m client)) [
  | inl e ↦ inl (e, ground arith)
  | inr (r, e) ↦
      let (there, held) = bound-some m client r s.registry e in
      elim (Option-cases (get (m.heap r).client_leases client)) [
        | inl absent ↦ ground arith
        | inr (lease, found) ↦ inr (r, lease, e, found, ground arith)
      ]
]

pub renew-IsSound :
    (m : Manager) (client : Text) (now : Instant)
    → IsSound m
    → IsSound (renew_client_lease m client now).1
renew-IsSound m client now s = elim (renew_lem m client now s) [
  | inl (at, e) ↦ rw e s
  | inr (r, lease, at, found, e) ↦ rw e (renewed-IsSound m client r lease now s found)
]

program-IsSound :
    (m : Manager) (r : Ref) (n : ℕ)
    → IsSound m
    → IsSound (assign m r (record (m.heap r) { active_operations = n }))
program-IsSound m r n s = assign-IsSound m r _ refl refl refl refl (λ a. a) s

pub program_begin-IsSound :
    (m m' : Manager) (r : Ref) → IsSound m → program_begin m r ≡ ok m' → IsSound m'
unfolding program_begin
program_begin-IsSound m m' r s e =
    subst IsSound (ground arith) (program-IsSound m r ((m.heap r).active_operations + 1) s)

pub program_end-IsSound : (m : Manager) (r : Ref) → IsSound m → IsSound (program_end m r)
unfolding program_end
program_end-IsSound m r s = program-IsSound m r _ s
