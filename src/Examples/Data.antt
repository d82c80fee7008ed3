-- ===== src/Examples/Data.antt =====
-- A registry of one main kernel, in which one session works, and a task that starts another.
use loommux.Prelude.{
  text_eq, subst, sym, ◌∙◌, text_eq_iff, text_is_eq, arith, ◌≡◌, ◌∷◌, ◌+◌, Text, codes, ℕ, [], inl,
  false, true, refl, some, none,
}
use loommux.Model.{
  running, key, Instant, ClientLease, SessionFacts, LeaseClient, KernelResource, resource_key,
}
use loommux.Manager.State.{IsSound, Task, Manager}
use loommux.Policy.{connection, LeasePolicy}
use loommux.Prelude.Dict.{get}
use loommux.Model.Keys.{HomeOk}

abbrev pub policy : LeasePolicy
policy = record {
  mode = connection;
  generation = 1;
  private_activity_timeout = 60;
  named_activity_timeout = 600;
  heartbeat_interval = 15;
  heartbeat_timeout = 60;
  connection_grace = 10;
}

abbrev pub ann : LeaseClient
ann = record { client_id = codes "s1"; display_name = codes "ann" }

abbrev pub bob : LeaseClient
bob = record { client_id = codes "s2"; display_name = codes "bob" }

abbrev pub clocks : ℕ → Instant
clocks t = record { monotonic = t; wall = 1000 + t }

abbrev pub lease : ClientLease
lease = record {
  client = ann;
  policy = policy;
  created_at = 1000;
  last_seen_at = 1000;
  renewed_at = 0;
  requested_at = 0;
  active_operations = 0;
  reported_alert = none;
}

abbrev pub session : SessionFacts
session = record { kernel_started = true; current_execution = none; executions = 2 }

abbrev pub kernel : KernelResource
kernel = record {
  resource_id = codes "a1";
  name = codes "lab";
  session = session;
  created_at = 1000;
  home = none;
  named = true;
  lifecycle = running;
  client_leases = (codes "s1", lease) ∷ [];
  active_operations = 0;
  orphaned_at = none;
  retained_until = none;
  closing_reason = none;
}

abbrev pub starting_task : Task
starting_task = record { name = codes "new"; home = none; named = true; registered = false }

abbrev pub lab : Manager
lab = record {
  heap = λ r. kernel;
  next_ref = 1;
  by_key = (codes "main:lab", 0) ∷ [];
  by_id = (codes "a1", 0) ∷ [];
  provisioning = (codes "main:new", starting_task) ∷ [];
  stopping = false;
  connections = [];
  orphan_grace = 30;
}

get_single : {V : Type 0} (j k : Text) (v w : V) → get ((j, v) ∷ []) k ≡ some w → (j ≡ k) × (v ≡ w)
unfolding get
get_single j k v w h = ground (arith, text_eq_iff j k)

lab_key : key kernel ≡ codes "main:lab"
unfolding resource_key
lab_key = refl

pub lab-IsSound : IsSound lab
unfolding get text_eq resource_key
lab-IsSound = record {
  registry = record {
    ids_distinct = (refl, tt);
    id_of = λ id r h. (get_single (codes "a1") id 0 r h).0;
    in_keys = λ id r h. ground (arith, get_single (codes "a1") id 0 r h, lab_key);
    key_of = λ k r h. lab_key ∙ (get_single (codes "main:lab") k 0 r h).0;
    in_ids = λ k r h. ground (arith, get_single (codes "main:lab") k 0 r h);
    allocated = λ id r h. omega (arith, (get_single (codes "a1") id 0 r h).1);
    homes = λ r. tt;
    ids = λ r. ground arith;
  };
  leased = record {
    main_only = λ id c r h held. refl;
    one_lease = λ c id id' r q h h' held held'.
        sym (get_single (codes "a1") id 0 r h).1 ∙ (get_single (codes "a1") id' 0 q h').1;
    alive = λ id r h. inl (refl, refl);
  };
  reserved = record {
    pending = λ k t h p.
        let (a, b) = get_single (codes "main:new") k starting_task t h in
        subst (λ k. (get lab.by_key k ≡ none) × (resource_key t.name t.home ≡ k) × HomeOk t.home) a
          (subst
            (λ t.
              (get lab.by_key (codes "main:new") ≡ none)
              × (resource_key t.name t.home ≡ codes "main:new")
              × HomeOk t.home)
            b task_ok);
  };
}
  where
    task_ok :
        (get lab.by_key (codes "main:new") ≡ none)
        × (resource_key (codes "new") none ≡ codes "main:new")
        × HomeOk none
    task_ok = (refl, refl, tt)

-- The kernel stands at its id.
pub lab_found : get lab.by_id (codes "a1") ≡ some 0
unfolding get text_eq
lab_found = refl
