-- ===== src/Api/Calls/Laws.antt =====
-- What holds of every call of the client.
use adms_server.Common.{
  String, false, Option, none, some, List, [], ◌≡◌, refl, sym, subst, ◌↔◌, ◌⊎◌, inl, inr, arith,
  ◌&&◌, truthy, get_or, is_some, if◌then◌else◌, ap, Bool-cases,
}
use adms_server.Common.Text.{◌+++◌}
use adms_server.Api.Json.{Json}
use adms_server.Api.Request.{
  Fetch, RequestInit, header, init_method, init_body, request_of, request, request_auth, settle,
  settle_auth,
}
use adms_server.Api.Calls.{
  ApiCall, login_call, human_call, record_call, enrollment_call, absence_call, roster_call,
  terminal_call, admin_call, endpoint, outgoing, perform,
}
use adms_server.Api.Calls.Base.{Endpoint, Platform, json_init}
use adms_server.Api.Calls.Login.{
  LoginCall, login, login_endpoint, HumanCall, humans, human_endpoint,
}
use adms_server.Api.Calls.Records.{RecordCall, devices, record_endpoint}
use adms_server.Api.Calls.Enrollments.{EnrollmentCall, enrollments, enrollment_endpoint}
use adms_server.Api.Calls.Absences.{AbsenceCall, ranks, absence_endpoint}
use adms_server.Api.Calls.Roster.{RosterCall, readiness, roster_endpoint}
use adms_server.Api.Calls.Admin.{
  TerminalCall, terminal_inventory, terminal_endpoint, AdminCall, list_operators, admin_endpoint,
}

-- The three forms of a call's init: none, a method alone, or a method with a JSON body.
abbrev Shape : Option RequestInit → Type 0
Shape init =
    (init ≡ none)
    ⊎ ((m : String) × (init ≡ some (record { method = some m; headers = []; body = none })))
    ⊎ ((m : String) × (body : Json) × (init ≡ some (json_init m body)))

login-Shape : (c : LoginCall) → Shape (login_endpoint c).init
unfolding login_endpoint
login-Shape (login u w) = inr (inr (_, _, refl))
login-Shape _ = ground arith

human-Shape : (p : Platform) (c : HumanCall) → Shape (human_endpoint p c).init
unfolding human_endpoint
human-Shape p (humans params) = inl refl
human-Shape p _ = ground arith

record-Shape : (p : Platform) (c : RecordCall) → Shape (record_endpoint p c).init
unfolding record_endpoint
record-Shape p devices = inl refl
record-Shape p _ = ground arith

enrollment-Shape : (p : Platform) (c : EnrollmentCall) → Shape (enrollment_endpoint p c).init
unfolding enrollment_endpoint
enrollment-Shape p (enrollments params) = inl refl
enrollment-Shape p _ = ground arith

absence-Shape : (p : Platform) (c : AbsenceCall) → Shape (absence_endpoint p c).init
unfolding absence_endpoint
absence-Shape p ranks = inl refl
absence-Shape p _ = ground arith

roster-Shape : (c : RosterCall) → Shape (roster_endpoint c).init
unfolding roster_endpoint
roster-Shape readiness = inl refl
roster-Shape _ = ground arith

terminal-Shape : (p : Platform) (c : TerminalCall) → Shape (terminal_endpoint p c).init
unfolding terminal_endpoint
terminal-Shape p terminal_inventory = inl refl
terminal-Shape p _ = ground arith

admin-Shape : (p : Platform) (c : AdminCall) → Shape (admin_endpoint p c).init
unfolding admin_endpoint
admin-Shape p list_operators = inl refl
admin-Shape p _ = ground arith

endpoint-Shape : (p : Platform) (c : ApiCall) → Shape (endpoint p c).init
unfolding endpoint
endpoint-Shape p (login_call c) = login-Shape c
endpoint-Shape p (human_call c) = human-Shape p c
endpoint-Shape p (record_call c) = record-Shape p c
endpoint-Shape p (enrollment_call c) = enrollment-Shape p c
endpoint-Shape p (absence_call c) = absence-Shape p c
endpoint-Shape p (roster_call c) = roster-Shape c
endpoint-Shape p (terminal_call c) = terminal-Shape p c
endpoint-Shape p (admin_call c) = admin-Shape p c

-- The headers of a request whose init has one of the three forms.
pub record IsDeclared (hs : List (String × String)) (e : Endpoint) (token : Option String)
    : Type 0 where
  pub accepts : header "Accept" hs ≡ some "application/json"
  pub authorized : header "Authorization" hs ≡ (
      if e.authenticated && truthy (get_or token "")
      then some ("Bearer " +++ get_or token "")
      else none)
  pub content :
      header "Content-Type" hs
      ≡ (if is_some (init_body e.init) then some "application/json" else none)
  pub fetched : init_method e.init ≡ none → init_body e.init ≡ none

outgoing-IsDeclared :
    (base : String) (e : Endpoint) (token : Option String)
    → Shape e.init
    → IsDeclared (outgoing base e token).headers e token
unfolding outgoing request_of
outgoing-IsDeclared base e token (inl none_given) = rw none_given (ground arith)
outgoing-IsDeclared base e token (inr (inl (m, plain))) = rw plain (ground arith)
outgoing-IsDeclared base e token (inr (inr (m, body, sent))) = rw sent (ground arith)

-- Every call sends the header Accept; it sends the token, as a bearer token, exactly when the call
-- is one of `request` and there is a token that is not empty; it sends a content type exactly when
-- it has a body; and a call with no method has no body.
request_headers :
    (p : Platform) (base : String) (c : ApiCall) (token : Option String)
    → IsDeclared (outgoing base (endpoint p c) token).headers (endpoint p c) token
request_headers p base c token = outgoing-IsDeclared base (endpoint p c) token (endpoint-Shape p c)

-- What a call does depends on the network only through the answer to its one request.
perform_once :
    (p : Platform) (base : String) (fetch fetch' : Fetch) (c : ApiCall) (token : Option String)
    → fetch (outgoing base (endpoint p c) token) ≡ fetch' (outgoing base (endpoint p c) token)
    → perform p base fetch c token ≡ perform p base fetch' c token
unfolding perform outgoing request request_auth
perform_once p base fetch fetch' c token h = elim (Bool-cases (endpoint p c).authenticated) [
  | inl e ↦ rw e (ap (settle token) (rw e at h))
  | inr e ↦ rw e (ap (λ a. (token, settle_auth a)) (rw e at h))
]

login-anonymous_iff :
    (c : LoginCall)
    → ((login_endpoint c).authenticated ≡ false)
      ↔ ((user : String) × (word : String) × (c ≡ login user word))
unfolding login_endpoint
login-anonymous_iff (login u w) = (λ e. (u, w, refl), λ h. refl)
login-anonymous_iff _ = ground arith

others_authenticated :
    (p : Platform) (c : ApiCall)
    → (endpoint p c).authenticated ≡ false
    → (l : LoginCall) × (c ≡ login_call l) × ((login_endpoint l).authenticated ≡ false)
unfolding endpoint human_endpoint record_endpoint enrollment_endpoint absence_endpoint
    roster_endpoint terminal_endpoint admin_endpoint
others_authenticated p (login_call l) h = (l, refl, h)
others_authenticated p (human_call (humans ps)) h = cc
others_authenticated p (human_call _) h = cc
others_authenticated p (record_call devices) h = cc
others_authenticated p (record_call _) h = cc
others_authenticated p (enrollment_call (enrollments ps)) h = cc
others_authenticated p (enrollment_call _) h = cc
others_authenticated p (absence_call ranks) h = cc
others_authenticated p (absence_call _) h = cc
others_authenticated p (roster_call readiness) h = cc
others_authenticated p (roster_call _) h = cc
others_authenticated p (terminal_call terminal_inventory) h = cc
others_authenticated p (terminal_call _) h = cc
others_authenticated p (admin_call list_operators) h = cc
others_authenticated p (admin_call _) h = cc

-- Logging in is the one call that is made without the token.
anonymous_iff :
    (p : Platform) (c : ApiCall)
    → ((endpoint p c).authenticated ≡ false)
      ↔ ((user : String) × (word : String) × (c ≡ login_call (login user word)))
unfolding endpoint
anonymous_iff p c = (
  λ e.
      let (l, is_login, anonymous) = others_authenticated p c e in
      let (user, word, same) = (login-anonymous_iff l).0 anonymous in (user, word, cc),
  λ h.
      subst (λ (d : ApiCall). (endpoint p d).authenticated ≡ false) (sym h.2)
        ((login-anonymous_iff (login h.0 h.1)).1 (h.0, h.1, refl)),
)
