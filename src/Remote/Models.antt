-- ===== src/Remote/Models.antt =====
-- The state of a remote session (internal/remote/models/status.go), and what the clients of the
-- remote services answer. The clients are generated code or net/http's.
use amalthea.Prelude.{
  ℕ, String, ◌<>◌, ◌⊎◌, inl, inr, Option, none, some, ℕ_eq, String_eq, if◌then◌else◌, is_empty,
}

-- `not_set` is the text that no constant has: the zero value "".
pub data RemoteSessionState : Type 0 where
  running : RemoteSessionState
  failed : RemoteSessionState
  completed : RemoteSessionState
  not_ready : RemoteSessionState
  not_set : RemoteSessionState

-- The answer of an API: it cannot be asked, or it gives a status, the decoded body of a success if
-- there is one, and the messages of the decoded errors if there are any (JSON4XX and JSON5XX).
pub data ApiAnswer (A : Type 0) : Type 0 where
  unreachable : String → ApiAnswer A
  answered : ℕ → Option A → Option String → Option String → ApiAnswer A

-- `http_status what code` is the error "what: HTTP code".
pub data RemoteError : Type 0 where
  failure : String → RemoteError
  http_status : String → ℕ → RemoteError

unfoldable pub get_error_message : Option String → Option String → String
get_error_message (some m) json5xx = m
get_error_message none (some m) = m
get_error_message none none = ""

unfoldable pub error_of : String → ℕ → Option String → Option String → RemoteError
unfolding get_error_message
error_of what code json4xx json5xx =
    let message = get_error_message json4xx json5xx in
    if is_empty message then http_status what code else failure (what <> ": " <> message)

-- The body of a success, or the error.
unfoldable pub checked : {A : Type 0} → String → ApiAnswer A → A ⊎ RemoteError
unfolding error_of
checked what (unreachable e) = inr (failure e)
checked what (answered code (some a) json4xx json5xx) = inl a
checked what (answered code none json4xx json5xx) = inr (error_of what code json4xx json5xx)
