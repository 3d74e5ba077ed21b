-- ===== src/Api.antt =====
-- frontend/js/api.js: the error and demo stores, the fetch wrapper and the write wrapper.
-- `fetch`, its timeout and the JSON parser are outside the program: what they did is a `Reply`.
pub mod Errors
pub mod Writes
pub mod Tests
use operations_api.Common.{
  ℕ, suc, ◌+◌, Bool, true, false, ◌&&◌, Option, none, some, List, [], ◌∷◌, ◌++◌, Text, text, ltb,
  leb, ◌==◌, if◌then◌else◌, any, filter, is_empty, starts_with, text_eq, before, decimal, not, has,
  get_or,
}

-- The module's variables, `window.API_ERRORS`, `window.DEMO_WIDGETS`, and the calls of the listener.
pub record Store : Type 0 where
  pub api_errors : List Text
  pub published_errors : List Text
  pub listening : Bool
  pub notified : ℕ
  pub demo_widgets : List Text
  pub published_demo : List Text

unfoldable pub notify_api_errors : Store → Store
notify_api_errors s = record s {
  published_errors = s.api_errors;
  notified = if s.listening then suc s.notified else s.notified;
}

unfoldable pub add_api_error : Text → Store → Store
unfolding notify_api_errors
add_api_error v s = notify_api_errors (record s { api_errors = s.api_errors ++ v ∷ [] })

unfoldable pub clear_api_errors : Store → Store
unfolding notify_api_errors
clear_api_errors s = notify_api_errors (record s { api_errors = [] })

publish_demo : Store → Store
publish_demo s = record s { published_demo = s.demo_widgets }

-- A `Set` as a list without repetitions, in the order of insertion.
unfoldable pub mark_demo : Text → Store → Store
unfolding publish_demo
mark_demo key s =
    if is_empty key
    then s
    else publish_demo (record s {
      demo_widgets = if has key s.demo_widgets then s.demo_widgets else s.demo_widgets ++ key ∷ [];
    })

unfoldable pub clear_demo : Text → Store → Store
unfolding publish_demo
clear_demo key s =
    if is_empty key
    then s
    else publish_demo (record s { demo_widgets = filter (λ k. not (text_eq k key)) s.demo_widgets })

unfoldable pub clear_all_demo : Store → Store
unfolding publish_demo
clear_all_demo s = publish_demo (record s { demo_widgets = [] })

unfoldable pub has_demo : Text → Store → Bool
has_demo key s = has key s.demo_widgets

-- `if (!apiErrors.some(e => e.startsWith(prefix))) addApiError(message)`
unfoldable pub record_once : Text → Text → Store → Store
record_once prefix message s =
    if any (λ e. starts_with e prefix) s.api_errors then s else add_api_error message s

-- `path.split('?')[0].replace(/^\//, '')`
drop_slash : Text → Text
drop_slash [] = []
drop_slash (c ∷ s) = if c == b'/' then s else c ∷ s

unfoldable pub clean_path : Text → Text
unfolding drop_slash
clean_path path = drop_slash (before b'?' path)

abbrev pub auth_message : Text
auth_message = text "Authentication failed — check your credentials"

abbrev pub permit_message : Text
permit_message = text "Not permitted — you lack the required role for that action"

abbrev pub rate_message : Text
rate_message = text "Rate limited — too many requests"

abbrev pub server_message : Text
server_message = text "Server error — data may be stale"

abbrev pub timeout_message : Text
timeout_message = text "Request timed out — server may be slow"

abbrev pub network_message : Text
network_message = text "Network error — API not reachable"

unfoldable pub path_error : Text → ℕ → Text
unfolding clean_path
path_error path status = clean_path path ++ (text " (" ++ (decimal status ++ text ")"))

unfoldable pub record_http_error : Text → ℕ → Store → Store
record_http_error path status s =
    if status == 401
    then record_once (text "Authentication") auth_message s
    else if status == 403
    then record_once (text "Not permitted") permit_message s
    else if status == 429
    then record_once (text "Rate") rate_message s
    else if leb 500 status
    then record_once (text "Server") server_message s
    else add_api_error (path_error path status) s

-- Why a request got no answer: the 15 s timer aborted it, or `fetch` or the parser threw.
pub data Fault : Type 0 where
  abort_error other_error : Fault

unfoldable pub record_transport_error : Fault → Store → Store × Text
record_transport_error abort_error s =
    (record_once (text "Request") timeout_message s, text "Request timed out")
record_transport_error other_error s =
    (record_once (text "Network") network_message s, text "Network error")

-- The body as `res.json()` gives it, `none` for the JSON `null`, or the exception that it throws.
pub data Body (V : Type 0) : Type 0 where
  json : Option V → Body V
  unreadable : Fault → Body V

-- What `fetch` came back with; `text` is the body of a refusal, empty where reading it throws.
pub data Reply (V : Type 0) : Type 0 where
  responded : (status : ℕ) → Body V → (error_text : Text) → Reply V
  broken : Fault → Reply V

-- `res.ok`
abbrev pub is_success : ℕ → Bool
is_success status = leb 200 status && ltb status 300

module _ {V : Type 0} where
  read_body : Body V → Store → Store × Option V
  read_body (json v) s = (s, v)
  read_body (unreadable fault) s = ((record_transport_error fault s).0, none)

  -- `api(path)`, the result `none` for `null`.
  unfoldable pub api : Text → Reply V → Store → Store × Option V
  unfolding read_body
  api path (responded status body _) s =
      if is_success status then read_body body s else (record_http_error path status s, none)
  api path (broken fault) s = ((record_transport_error fault s).0, none)

-- `{ ok, status, error }`, and `data` on success.
pub record WriteResult (V : Type 0) : Type 0 where
  pub ok : Bool
  pub status : ℕ
  pub error : Text
  pub result : Option V

-- `message || "Error <status>"`; `JSON.parse(text).error`, where that parses to something with a
-- truthy `error`, is outside the program.
unfoldable pub error_message : (Text → Option Text) → ℕ → Text → Text
error_message error_field status body =
    let message = get_or (error_field body) body in
    if is_empty message then text "Error " ++ decimal status else message

json_or_null : {V : Type 0} → Body V → Option V
json_or_null (json v) = v
json_or_null (unreadable fault) = none

module _ {V : Type 0} (error_field : Text → Option Text) where
  -- `apiWrite(method, path, body)`, in what it does with the answer.
  unfoldable pub api_write : Text → Reply V → Store → Store × WriteResult V
  unfolding error_message json_or_null
  api_write path (responded status body error_text) s =
      if is_success status
      then (s, record { ok = true; status = status; error = []; result = json_or_null body })
      else (
        record_http_error path status s,
        record {
          ok = false;
          status = status;
          error = error_message error_field status error_text;
          result = none;
        },
      )
  api_write path (broken fault) s =
      let (s', message) = record_transport_error fault s in
      (s', record { ok = false; status = 0; error = message; result = none })
