-- ===== src/Connections/Presence.antt =====
-- mcp/stream_presence.py: what one HTTP exchange reports to the registry of connections. Header names
-- and values are bytes, which latin-1 reads as code points.
use loommux.Connections.{Address}
use loommux.Prelude.{
  Option-cases, arith, leb, ◌&&◌, not, ◌||◌, text_eq, ◌++◌, ◌==◌, ◌∷◌, ◌≡◌, if◌then◌else◌, codes,
  Text, ℕ, List, Option, Bool, [], inr, inl, false, true, refl, some, none,
}
use loommux.Prelude.Lists.{any}

-- `name == b"mcp-session-id"` in the first header of that name.
pub record Scope : Type 0 where
  pub is_http_get : Bool
  pub headers : List (Text × Text)
  pub client : Option Address

-- A message of the application: the start of a response, or anything else.
pub data AsgiMessage : Type 0 where
  response_start : (status : ℕ) → List (Text × Text) → AsgiMessage
  other_asgi_message : AsgiMessage

pub data Report : Type 0 where
  opened closed : (session : Text) → Option Address → Report

abbrev session_header : Text
session_header = codes "mcp-session-id"

filled_value : Text → Option Text
filled_value [] = none
filled_value (c ∷ t) = some (c ∷ t)

session_in : List (Text × Text) → Option Text
unfolding filled_value
session_in [] = none
session_in ((name, value) ∷ headers) =
    let rest = session_in headers in
    if text_eq name session_header then filled_value value else rest

-- _stream_session
unfoldable pub stream_session : Scope → Option Text
unfolding session_in
stream_session s = if s.is_http_get then session_in s.headers else none

-- `value.split(b";")[0]`
before_semicolon : Text → Text
before_semicolon [] = []
before_semicolon (c ∷ t) = let rest = before_semicolon t in if c == b';' then [] else c ∷ rest

-- The blanks that `bytes.strip` takes off.
abbrev is_ascii_blank : ℕ → Bool
is_ascii_blank c = c == 0x20 || (leb 0x09 c && leb c 0x0d)

skip_blanks : Text → Text
skip_blanks [] = []
skip_blanks (c ∷ t) = let rest = skip_blanks t in if is_ascii_blank c then rest else c ∷ t

cut_blanks : Text → Text
cut_blanks [] = []
cut_blanks (c ∷ t) = elim (cut_blanks t) [
  | [] ↦ if is_ascii_blank c then [] else c ∷ []
  | d ∷ u ↦ c ∷ d ∷ u
]

unfoldable pub is_event_stream : Text × Text → Bool
unfolding cut_blanks skip_blanks before_semicolon
is_event_stream (name, value) =
    text_eq name (codes "content-type")
    && text_eq (cut_blanks (skip_blanks (before_semicolon value))) (codes "text/event-stream")

-- _opens_event_stream
unfoldable pub opens_event_stream : AsgiMessage → Bool
opens_event_stream other_asgi_message = false
opens_event_stream (response_start status headers) = status == 200 && any is_event_stream headers

-- observed_send, over the messages that the application sends: whether the stream was opened, with the
-- reports.
unfoldable pub observed : Text → Option Address → Bool → List AsgiMessage → List Report × Bool
observed session client is_open [] = ([], is_open)
observed session client is_open (m ∷ ms) =
    let now = not is_open && opens_event_stream m in
    let (reports, at_end) = observed session client (is_open || now) ms in
    (if now then opened session client ∷ reports else reports, at_end)

-- __call__: the reports of one exchange, however the application ends.
unfoldable pub presence_reports : Scope → List AsgiMessage → List Report
unfolding observed
presence_reports s ms = elim (stream_session s) [
  | none ↦ []
  | some session ↦
      let (reports, is_open) = observed session s.client false ms in
      reports ++ (if is_open then closed session s.client ∷ [] else [])
]

observed-open :
    (session : Text) (client : Option Address) (ms : List AsgiMessage)
    → observed session client true ms ≡ ([], true)
unfolding observed
observed-open session client [] = refl
observed-open session client (m ∷ ms) = rw (observed-open session client ms) refl

observed-closed :
    (session : Text) (client : Option Address) (ms : List AsgiMessage)
    → observed session client false ms
      ≡ (if any opens_event_stream ms then (opened session client ∷ [], true) else ([], false))
unfolding observed
observed-closed session client [] = refl
observed-closed session client (m ∷ ms) =
    ground (arith, observed-open session client ms, observed-closed session client ms)

-- An exchange reports a stream as opened once and as closed once, in this order and with one address,
-- if it is of a session and one of its messages opens an event stream; else it reports nothing.
pub presence_reports_lem :
    (s : Scope) (ms : List AsgiMessage)
    → presence_reports s ms ≡ elim (stream_session s) [
      | none ↦ []
      | some session ↦
          if any opens_event_stream ms
          then opened session s.client ∷ closed session s.client ∷ []
          else []
    ]
unfolding presence_reports
presence_reports_lem s ms = elim (Option-cases (stream_session s)) [
  | inl h ↦ rw (presence_reports, h) refl
  | inr (session, h) ↦ ground (arith, observed-closed session s.client ms)
]
