-- ===== src/Configuration/Files/Loaded.antt =====
-- config.py: what is known of a configuration that was loaded.
use loommux.Configuration.Files.{
  ModuleValue, LoommuxConfig, config_of, is_read, resolver_name, is_setting_name, checked_settings,
  as_settings,
}
use loommux.Prelude.{
  ◌∙◌, ◌||◌, true, ap, arith, text_eq_iff, text_eq, not, Bool-cases, text_is_eq, ◌∷◌, ◌≡◌, Bool,
  Text, ℕ, [], inr, inl, false, some,
}
use loommux.Prelude.Dict.{get-retain, get-remove, Distinct, retain, remove, get, keys, Dict}
use loommux.Prelude.Lists.{any}
use loommux.Prelude.Result.{Result-cases, ok}
use loommux.Configuration.Settings.{from_values}
use loommux.Policy.{policy_of, init, LeasePolicyManager}
use loommux.Configuration.Settings.Accepted.{from_values-init}

any-keys :
    (p : Text → Bool) (d : Dict Text ModuleValue) (k : Text) (v : ModuleValue)
    → any p (keys d) ≡ false
    → get d k ≡ some v
    → p k ≡ false
unfolding keys get
any-keys p [] k v h g = cc
any-keys p ((j, w) ∷ d) k v h g = elim (Bool-cases (text_eq j k)) [
  | inl e ↦ let same = (text_eq_iff j k).0 e in ground (arith, ap p same)
  | inr e ↦ any-keys p d k v (ground arith) (ground arith)
]

-- The names that are left of a module, and what is made of them.
abbrev names_of : Dict Text ModuleValue → Dict Text ModuleValue
names_of d = remove (retain is_read d) resolver_name

config_of-ok :
    (second : ℕ) (d : Dict Text ModuleValue) (startup : Bool) (c : LoommuxConfig)
    → config_of second d startup ≡ ok c
    → (any (λ name. not (is_setting_name name)) (keys (names_of d)) ≡ false)
      × (from_values second (as_settings (names_of d)) ≡ ok c.settings)
unfolding config_of checked_settings
config_of-ok second d startup c h =
    elim (Result-cases (from_values second (as_settings (names_of d)))) [
      | inl (x, e) ↦ ground arith
      | inr (x, e) ↦ ground arith
    ]

-- Of a configuration that is loaded: every name that its `config.py` sets and that is read is one that
-- loommux knows, so a misspelled one is reported and leaves no default in force; and its settings make
-- the first generation of the lease policy.
pub config_of-known :
    (second : ℕ) (d : Dict Text ModuleValue) (startup : Bool) (c : LoommuxConfig)
    → Distinct d
    → config_of second d startup ≡ ok c
    → ((name : Text) (v : ModuleValue)
        → get d name ≡ some v
        → is_read name v ≡ true
        → (text_eq resolver_name name || is_setting_name name) ≡ true)
      × (m : LeasePolicyManager) × (init c.settings.lease_mode c.settings.durations ≡ ok m)
      × (m.policy ≡ policy_of c.settings.lease_mode 1 c.settings.durations)
config_of-known second d startup c v h =
    let (known, valid) = config_of-ok second d startup c h in
    let (m, starts, first, sweep, orphan) = from_values-init second _ c.settings valid in
    (
      (λ name w found read. elim (Bool-cases (text_eq resolver_name name)) [
        | inl e ↦ ground arith
        | inr e ↦
            let there : get (names_of d) name ≡ some w =
              get-remove (retain is_read d) resolver_name name
              ∙ rw e (get-retain is_read d name v ∙ ground arith) in
            let listed = any-keys (λ n. not (is_setting_name n)) (names_of d) name w known there in
            ground arith
      ]),
      m,
      starts,
      first,
    )
