-- ===== src/Delivery/Environment.antt =====
-- mcp/presentation.py: what the environment says in a result, as one envelope. How Python prints a
-- float is in the fields.
use loommux.Prelude.{
  ◌∙◌, Bool-cases, sym, ap, ◌⊎◌, inr, inl, ◌==◌, map, text_eq, arith, codes, if◌then◌else◌, ◌∷◌,
  ◌↔◌, ◌++◌, ℕ, List, Option, Text, ◌≡◌, [], refl, some, none,
}
use loommux.Session.Notices.{Notice}
use loommux.Prelude.Decimal.{decimal}
use loommux.Delivery.Surfaces.Coordinate.{named, named-append}

-- The label of a line: the shown cell needs none.
unfoldable pub label : Option ℕ → Option ℕ → Text
label shown none = codes "Startup · "
label none (some n) = codes "In [" ++ decimal n ++ codes "] · "
label (some s) (some n) = if n == s then [] else codes "In [" ++ decimal n ++ codes "] · "

-- "\n".join(lines)
unfoldable pub joined : List Text → Text
joined [] = []
joined (l ∷ []) = l
joined (l ∷ m ∷ ls) = l ++ (codes "\n" ++ joined (m ∷ ls))

-- format_notices
unfoldable pub format_notices : List Notice → Option ℕ → Text
unfolding joined label
format_notices notices shown = joined (map (λ n. label shown n.execution ++ n.text) notices)

pub record BindingField : Type 0 where
  pub kind : Text
  pub name : Text
  pub executions : ℕ
  pub released : Option Text

earlier : BindingField → Text
earlier b =
    if text_eq b.kind (codes "attached")
    then codes "; "
      ++ decimal b.executions
      ++ codes " earlier execution"
      ++ (if b.executions == 1 then [] else codes "s")
    else []

let_go_of : Option Text → Text
let_go_of (some (c ∷ t)) = codes "; let go of " ++ c ∷ t
let_go_of _ = []

-- format_binding
unfoldable pub format_binding : BindingField → Text
unfolding earlier let_go_of
format_binding b =
    codes "Kernel: "
    ++ b.name
    ++ codes " ("
    ++ b.kind
    ++ earlier b
    ++ let_go_of b.released
    ++ codes ")"

pub record LeaseAlertField : Type 0 where
  pub standing : Option Text
  pub window : Text

-- _LEASE_ALERT_CAUSES, with the cause of any other standing.
unfoldable pub lease_alert_cause : Text → Text
lease_alert_cause standing =
    if text_eq standing (codes "unbound")
    then codes
        "this MCP session never opened the standalone GET stream that a connection lease relies on"
    else if text_eq standing (codes "stream_lost")
    then codes
        "this MCP session's standalone GET stream closed and was not reopened, yet the client keeps sending requests"
    else codes "the connection lease lost its stream signal"

-- format_lease_alert
unfoldable pub format_lease_alert : LeaseAlertField → Text
unfolding lease_alert_cause
format_lease_alert a =
    let standing : Text = elim a.standing [ none ↦ codes "unknown" | some t ↦ t ] in
    codes "Lease alert ("
    ++ standing
    ++ codes "): "
    ++ lease_alert_cause standing
    ++ codes ", so loommux cannot tell when the client leaves. This workbench now expires after "
    ++ a.window
    ++ codes
        " idle seconds like an activity lease. The MCP client's transport behavior has likely changed; tell the person running loommux and check its resource console."

pub record EnvironmentFields : Type 0 where
  pub notices : List Notice
  pub execution : Option ℕ
  pub binding : Option BindingField
  pub lease_alert : Option LeaseAlertField

said_notices : List Notice → Option ℕ → List Text
said_notices [] shown = []
said_notices (n ∷ ns) shown = format_notices (n ∷ ns) shown ∷ []

said_once : {A : Type 0} → (A → Text) → Option A → List Text
said_once format none = []
said_once format (some a) = format a ∷ []

-- format_environment
unfoldable pub format_environment : EnvironmentFields → Option Text
unfolding said_notices said_once joined
format_environment s =
    let lines =
      said_notices s.notices s.execution
      ++ (said_once format_binding s.binding ++ said_once format_lease_alert s.lease_alert) in
    elim lines [
      | [] ↦ none
      | l ∷ ls ↦
          some (codes "\n<loommux-notice>\n" ++ joined (l ∷ ls) ++ codes "\n</loommux-notice>")
    ]

opening : Text → ℕ
opening [] = 0
opening (c ∷ t) = c

in_label : ℕ → Text
in_label n = codes "In [" ++ decimal n ++ codes "] · "

named_in_label : (n : ℕ) → named (in_label n) ≡ n
unfolding in_label
named_in_label n = named-append n (codes " · ")

-- What a cell's label is: none where it is shown, or one that opens with another letter than that of
-- the startup files.
label-cases :
    (shown : Option ℕ) (n : ℕ)
    → ((shown ≡ some n) × (label shown (some n) ≡ []))
      ⊎ ((¬ (shown ≡ some n)) × (label shown (some n) ≡ in_label n))
unfolding label in_label
label-cases none n = inr ((λ e. cc), refl)
label-cases (some s) n = elim (Bool-cases (n == s)) [
  | inl e ↦ inl (ground arith, rw e refl)
  | inr e ↦ inr ((λ k. absurd (ground arith)), rw e refl)
]

startup_apart : (shown : Option ℕ) (n : ℕ) → ¬ (codes "Startup · " ≡ label shown (some n))
unfolding opening in_label
startup_apart shown n e = elim (label-cases shown n) [
  | inl (_, k) ↦ absurd (omega (arith, ap opening (e ∙ k)))
  | inr (_, k) ↦ absurd (omega (arith, ap opening (e ∙ k)))
]

-- Two cells, or a cell and the startup files, have different labels.
pub label-injective : (shown a b : Option ℕ) → label shown a ≡ label shown b → a ≡ b
unfolding label opening in_label
label-injective shown none none e = refl
label-injective shown none (some n) e = absurd (startup_apart shown n e)
label-injective shown (some n) none e = absurd (startup_apart shown n (sym e))
label-injective shown (some n) (some m) e = elim (label-cases shown n) [
  | inl (h, x) ↦ elim (label-cases shown m) [
    | inl (k, y) ↦ sym h ∙ k
    | inr (_, y) ↦ absurd (omega (arith, ap opening (sym x ∙ e ∙ y)))
  ]
  | inr (_, x) ↦ elim (label-cases shown m) [
    | inl (_, y) ↦ absurd (omega (arith, ap opening (sym x ∙ e ∙ y)))
    | inr (_, y) ↦ ap some (sym (named_in_label n) ∙ ap named (sym x ∙ e ∙ y) ∙ named_in_label m)
  ]
]

-- The environment says nothing exactly where there are no notices, no new binding and no alert.
pub format_environment-none :
    (s : EnvironmentFields)
    → (format_environment s ≡ none)
      ↔ ((s.notices ≡ []) × (s.binding ≡ none) × (s.lease_alert ≡ none))
unfolding format_environment said_notices said_once
format_environment-none s = ground arith
