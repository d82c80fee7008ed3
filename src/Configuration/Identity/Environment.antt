-- ===== src/Configuration/Identity/Environment.antt =====
-- identity.py and kernel/launch.py: a kernel reads back what it is told.
use loommux.Configuration.Identity.{
  controlled_environment, removed_environment_variables, filled, KernelIdentity, environment,
  from_environ, launch_environment, update_all, remove_all, kernel_id_env, kernel_name_env,
  control_url_env, is_filled,
}
use loommux.Prelude.{
  Option-cases, text_eq_refl, arith, ◌∙◌, Bool-cases, text_is_eq, codes, ◌∷◌, text_eq, List, [],
  inr, inl, false, refl, Text, ◌≡◌, true, some, none,
}
use loommux.Prelude.Dict.{get-remove, get-put, remove, put, get, Dict}
use loommux.Prelude.Lists.{any}

-- An identity that the environment can carry.
pub record IsTellable (i : KernelIdentity) : Type 0 where
  pub has_id : is_filled i.kernel_id ≡ true
  pub url_filled : (url : Text) → i.control_url ≡ some url → is_filled url ≡ true

get-remove_all :
    (ks : List Text) (d : Dict Text Text) (j : Text)
    → get d j ≡ none
    → get (remove_all d ks) j ≡ none
unfolding remove_all
get-remove_all [] d j h = h
get-remove_all (k ∷ ks) d j h = get-remove_all ks (remove d k) j (ground (arith, get-remove d k j))

get-removed :
    (ks : List Text) (d : Dict Text Text) (j : Text)
    → any (λ k. text_eq k j) ks ≡ true
    → get (remove_all d ks) j ≡ none
unfolding remove_all
get-removed [] d j h = cc
get-removed (k ∷ ks) d j h = elim (Bool-cases (text_eq k j)) [
  | inl e ↦ get-remove_all ks (remove d k) j (get-remove d k j ∙ ground arith)
  | inr e ↦ get-removed ks (remove d k) j (ground arith)
]

get-update_all :
    (other : Dict Text Text) (d : Dict Text Text) (j : Text)
    → any (λ p. text_eq p.0 j) other ≡ false
    → get (update_all d other) j ≡ get d j
unfolding update_all
get-update_all [] d j h = refl
get-update_all ((k, v) ∷ other) d j h =
    get-update_all other (put d k v) j (ground arith) ∙ get-put d k j v ∙ ground arith

-- The environment before a kernel is told who it is.
base : Dict Text Text → Dict Text Text
base environ = update_all (remove_all environ removed_environment_variables) controlled_environment

get-base :
    (environ : Dict Text Text) (j : Text)
    → any (λ k. text_eq k j) removed_environment_variables ≡ true
    → any (λ p. text_eq p.0 j) controlled_environment ≡ false
    → get (base environ) j ≡ none
unfolding base
get-base environ j r c =
    get-update_all controlled_environment _ j c
    ∙ get-removed removed_environment_variables environ j r

get-put-same : (d : Dict Text Text) (k v : Text) → get (put d k v) k ≡ some v
get-put-same d k v = get-put d k k v ∙ ground (arith, text_eq_refl k)

get-put-other :
    (d : Dict Text Text) (k j v : Text) → text_eq k j ≡ false → get (put d k v) j ≡ get d j
get-put-other d k j v h = get-put d k j v ∙ ground arith

-- The last two names that the environment gets are not those of an identity.
get-launch :
    (d : Dict Text Text) (a b j : Text)
    → text_eq (codes "IPYTHONDIR") j ≡ false
    → text_eq (codes "JUPYTER_CONFIG_DIR") j ≡ false
    → get (put (put d (codes "IPYTHONDIR") a) (codes "JUPYTER_CONFIG_DIR") b) j ≡ get d j
get-launch d a b j h k = get-put-other _ _ j b k ∙ get-put-other d _ j a h

filled-is_filled : (t : Text) → is_filled t ≡ true → filled (some t) ≡ some t
filled-is_filled [] h = cc
filled-is_filled (c ∷ t) h = refl

filled-url : (i : KernelIdentity) → IsTellable i → filled i.control_url ≡ i.control_url
filled-url i h = elim (Option-cases i.control_url) [
  | inl e ↦ rw e refl
  | inr (url, e) ↦ rw e (filled-is_filled url (h.url_filled url e))
]

-- What is read where the three names are set, the last of them or not.
read_back :
    (d : Dict Text Text) (i : KernelIdentity)
    → IsTellable i
    → get d kernel_id_env ≡ some i.kernel_id
    → get d kernel_name_env ≡ some i.name
    → get d control_url_env ≡ i.control_url
    → from_environ d ≡ some i
unfolding from_environ
read_back d i h a b c =
    rw (from_environ, a, filled-is_filled i.kernel_id h.has_id, b, c, filled-url i h) refl

read_none : (d : Dict Text Text) → get d kernel_id_env ≡ none → from_environ d ≡ none
unfolding from_environ
read_none d h = rw (from_environ, h) refl

get-environment :
    (d : Dict Text Text) (i : KernelIdentity)
    → (get d control_url_env ≡ none)
    → let told = update_all d (environment i) in
      (get told kernel_id_env ≡ some i.kernel_id)
      × (get told kernel_name_env ≡ some i.name)
      × (get told control_url_env ≡ i.control_url)
unfolding update_all environment text_eq put
get-environment d i n =
    let first : Dict Text Text = put d kernel_id_env i.kernel_id in
    let named : Dict Text Text = put (put d kernel_id_env i.kernel_id) kernel_name_env i.name in
    let id : get named kernel_id_env ≡ some i.kernel_id =
      get-put-other first kernel_name_env kernel_id_env i.name refl
      ∙ get-put-same d kernel_id_env i.kernel_id in
    let name : get named kernel_name_env ≡ some i.name =
      get-put-same first kernel_name_env i.name in
    elim (Option-cases i.control_url) [
      | inl e ↦ rw e (
        id,
        name,
        get-put-other first kernel_name_env control_url_env i.name refl
            ∙ get-put-other d kernel_id_env control_url_env i.kernel_id refl
            ∙ n,
      )
      | inr (url, e) ↦ rw e (
        get-put-other named control_url_env kernel_id_env url refl ∙ id,
        get-put-other named control_url_env kernel_name_env url refl ∙ name,
        get-put-same named control_url_env url,
      )
    ]

-- Whatever identity the daemon's own environment carries: a kernel that is given an identity reads back
-- that one, and a kernel that is given none reads none.
pub from_environ-launch_environment :
    (environ : Dict Text Text) (i : KernelIdentity) (ipython jupyter : Text)
    → IsTellable i
    → (from_environ (launch_environment environ (some i) ipython jupyter) ≡ some i)
      × (from_environ (launch_environment environ none ipython jupyter) ≡ none)
unfolding launch_environment text_eq from_environ base
from_environ-launch_environment environ i ipython jupyter h =
    let told = update_all (base environ) (environment i) in
    let bare = get-base environ in
    let (a, b, c) = get-environment (base environ) i (bare control_url_env refl refl) in
    (
      read_back _ i h (get-launch told ipython jupyter kernel_id_env refl refl ∙ a)
          (get-launch told ipython jupyter kernel_name_env refl refl ∙ b)
          (get-launch told ipython jupyter control_url_env refl refl ∙ c),
      read_none _ (
          get-launch (base environ) ipython jupyter kernel_id_env refl refl
          ∙ bare kernel_id_env refl refl),
    )
