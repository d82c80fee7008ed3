-- ===== src/Manager/Reach.antt =====
-- resource/manager.py: the states that a manager can come to, where the sections of concurrent calls,
-- of the tasks and of the sweeper follow one another in any order.
use loommux.Prelude.{
  ◌≢◌, arith, text_is_eq, ◌≡◌, ◌∙◌, sym, subst, Bool, Option, Text, ℕ, [], false, refl, some, none,
}
use loommux.Manager.Admit.{program_end, finish, admit, program_begin, renew_client_lease}
use loommux.Manager.State.{quiet-IsSound, Task, assign-IsSound, assign, Ref, IsSound, Manager}
use loommux.Connections.{
  presence, bind_to_process, stream_closed, stream_opened, Address, ConnectionRegistry,
}
use loommux.Manager.Recycle.{stop_clear, recovery_fails, recycle, stop_begin}
use loommux.Manager.Claims.{provision_end, claim, provision}
use loommux.Manager.Claims.Unique.{provision_end-IsSound, claim-IsSound}
use loommux.Model.{
  stopped, ClosingReason, Binding, Instant, BindingKind, KernelRequest, LeaseClient, SessionFacts,
  KernelResource,
}
use loommux.Manager.Claims.Enroll.{not_stopping, provision-IsSound}
use loommux.Model.Keys.{NoColon, HomeOk}
use loommux.Prelude.Result.{ok, ok-injective}
use loommux.Prelude.Dict.{get}
use loommux.Manager.Admit.Sound.{admit-IsSound}
use loommux.Manager.Admit.Ending.{
  program_end-IsSound, program_begin-IsSound, renew-IsSound, finish-IsSound,
}
use loommux.Manager.Rename.Sound.{rename-IsSound}
use loommux.Manager.Recycle.Sound.{
  unregistered-IsSound, stop_begin-IsSound, recovery_fails-IsSound, stop_clear-IsSound,
  recycle-IsSound,
}
use loommux.Manager.Sweep.Whole.{sweep-IsSound}
use loommux.Policy.{LeasePolicy}
use loommux.Manager.Rename.{rename}
use loommux.Manager.Sweep.{sweep}

-- KernelResourceManager(...), with settings that its checks let pass.
pub new_manager : ConnectionRegistry → ℕ → KernelResource → Manager
new_manager connections grace blank = record {
  heap = λ r. blank;
  next_ref = 0;
  by_key = [];
  by_id = [];
  provisioning = [];
  stopping = false;
  connections = connections;
  orphan_grace = grace;
}

-- One section. A task registers its kernel once, under an id in no use that has no colon
-- (`uuid4().hex`); an operation is admitted to a main kernel. A recovery may fail when its kernel has
-- been taken out already, but the id of the kernel is never given to another one. A kernel that is out of
-- the registry is marked as stopped when its session has closed. Streams open and close at
-- any time, and reading the state of a lease may meet its session for the first time.
pub data Step (m : Manager) : Manager → Type 0 where
  claiming :
      (name : Text) (home : Option Text) (named : Bool)
      → HomeOk home
      → Step m (claim m name home named).1
  starting :
      {m' : Manager} (k : Text) (t : Task) (id : Text) (session : SessionFacts) (wall : ℕ)
      → get m.provisioning k ≡ some t
      → t.registered ≡ false
      → get m.by_id id ≡ none
      → NoColon id
      → provision m k id session wall ≡ ok m'
      → Step m m'
  started : (k : Text) → Step m (provision_end m k)
  admitting :
      {m' : Manager} (client : LeaseClient) (policy : LeasePolicy) (request : Option KernelRequest)
      (r : Ref) (kind : Option BindingKind) (now : Instant) (binding : Option Binding)
      → (m.heap r).home ≡ none
      → admit m client policy request r kind now ≡ some (m', binding)
      → Step m m'
  finishing : (client : Text) (r : Ref) (now : Instant) → Step m (finish m client r now)
  renewing : (client : Text) (now : Instant) → Step m (renew_client_lease m client now).1
  beginning : {m' : Manager} (r : Ref) → program_begin m r ≡ ok m' → Step m m'
  ending : (r : Ref) → Step m (program_end m r)
  renaming : {m' : Manager} (id name : Text) (r : Ref) → rename m id name ≡ ok (r, m') → Step m m'
  recycling :
      {m' : Manager} (id : Text) (force : Bool) (reason : ClosingReason) (r : Ref)
      → recycle m id force reason ≡ ok (r, m')
      → Step m m'
  recovering :
      (r : Ref)
      → ((q : Ref) → get m.by_id (m.heap r).resource_id ≡ some q → q ≡ r)
      → Step m (recovery_fails m r)
  closed :
      (r : Ref)
      → get m.by_id (m.heap r).resource_id ≢ some r
      → Step m (assign m r (record (m.heap r) { lifecycle = stopped }))
  opening :
      (session : Text) (address : Option Address) (now : ℕ)
      → Step m (record m { connections = stream_opened m.connections session address now })
  shutting :
      (session : Text) (address : Option Address) (now : ℕ)
      → Step m (record m { connections = stream_closed m.connections session address now })
  meeting :
      (session : Text) (now : ℕ)
      → Step m (record m { connections = (presence m.connections session now).1 })
  binding_ :
      (session : Text) (now : ℕ)
      → Step m (record m { connections = bind_to_process m.connections session now })
  sweeping : (now : ℕ) → Step m (sweep m now)
  stopping : Step m (stop_begin m)
  clearing : Step m (stop_clear m)
  observing :
      (r : Ref) (session : SessionFacts)
      → Step m (assign m r (record (m.heap r) { session = session }))

pub data Reach (m : Manager) : Manager → Type 0 where
  initially : Reach m m
  then_ : {n n' : Manager} → Reach m n → Step n n' → Reach m n'

connections-IsSound :
    (m : Manager) (c : ConnectionRegistry) → IsSound m → IsSound (record m { connections = c })
connections-IsSound m c s =
    quiet-IsSound m _
      (record {
        same_ids = refl;
        same_keys = refl;
        same_next = refl;
        same_tasks = refl;
        same_id = λ q. refl;
        same_name = λ q. refl;
        same_home = λ q. refl;
      })
      (λ q c h. h) (λ id q f a. a) s

-- Every section keeps the registry sound.
pub Step-IsSound : (m m' : Manager) → IsSound m → Step m m' → IsSound m'
Step-IsSound m _ s (claiming name home named scope) = claim-IsSound m s name home named scope
Step-IsSound m m' s (starting k t id session wall there waits fresh hex e) =
    let (n, e', sound, _, _, _, _, _) =
      provision-IsSound m k t id session wall s (not_stopping m m' k id session wall e) there waits
        fresh hex in
    subst IsSound (ok-injective (sym e' ∙ e)) sound
Step-IsSound m _ s (started k) = provision_end-IsSound m k s
Step-IsSound m m' s (admitting client policy request r kind now binding main e) =
    (admit-IsSound m m' client policy request r kind now binding s main e).0
Step-IsSound m _ s (finishing client r now) = (finish-IsSound m s client r now).0
Step-IsSound m _ s (renewing client now) = renew-IsSound m client now s
Step-IsSound m m' s (beginning r e) = program_begin-IsSound m m' r s e
Step-IsSound m _ s (ending r) = program_end-IsSound m r s
Step-IsSound m m' s (renaming id name r e) = (rename-IsSound m m' id name r s e).0
Step-IsSound m m' s (recycling id force reason r e) = (recycle-IsSound m m' id force reason r s e).2
Step-IsSound m _ s (recovering r own) = recovery_fails-IsSound m r s own
Step-IsSound m _ s (closed r away) = unregistered-IsSound m r _ s away refl refl refl refl
Step-IsSound m _ s (opening session address now) = connections-IsSound m _ s
Step-IsSound m _ s (shutting session address now) = connections-IsSound m _ s
Step-IsSound m _ s (meeting session now) = connections-IsSound m _ s
Step-IsSound m _ s (binding_ session now) = connections-IsSound m _ s
Step-IsSound m _ s (sweeping now) = sweep-IsSound m now s
Step-IsSound m _ s stopping = stop_begin-IsSound m s
Step-IsSound m _ s clearing = (stop_clear-IsSound m s).0
Step-IsSound m _ s (observing r session) = assign-IsSound m r _ refl refl refl refl (λ a. a) s

pub reached-IsSound : (m n : Manager) → IsSound m → Reach m n → IsSound n
reached-IsSound m _ s initially = s
reached-IsSound m _ s (then_ r step) = Step-IsSound _ _ (reached-IsSound m _ s r) step

pub new_manager-IsSound :
    (connections : ConnectionRegistry) (grace : ℕ) (blank : KernelResource)
    → NoColon blank.resource_id
    → HomeOk blank.home
    → IsSound (new_manager connections grace blank)
unfolding new_manager get
new_manager-IsSound connections grace blank id home = record {
  registry = record {
    ids_distinct = tt;
    id_of = λ id r h. ground arith;
    in_keys = λ id r h. ground arith;
    key_of = λ k r h. ground arith;
    in_ids = λ k r h. ground arith;
    allocated = λ id r h. ground arith;
    homes = λ r. home;
    ids = λ r. id;
  };
  leased = record {
    main_only = λ id c r h held. ground arith;
    one_lease = λ c id id' r q h h' held held'. ground arith;
    alive = λ id r h. ground arith;
  };
  reserved = record { pending = λ k t h p. ground arith };
}

-- Where every kernel has an id of its own, as the sections say, the registry of a manager stays sound
-- through any sequence of them from its start: ids and
-- keys name the same kernels, no two of one scope share a name, a session has one lease at most and on
-- a main kernel, and the key of a task that has registered nothing is free.
pub Reach-IsSound :
    (connections : ConnectionRegistry) (grace : ℕ) (blank : KernelResource) (m : Manager)
    → NoColon blank.resource_id
    → HomeOk blank.home
    → Reach (new_manager connections grace blank) m
    → IsSound m
Reach-IsSound connections grace blank m id home r =
    reached-IsSound (new_manager connections grace blank) m
      (new_manager-IsSound connections grace blank id home) r
