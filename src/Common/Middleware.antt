-- ===== src/Common/Middleware.antt =====
-- apps/common/middleware.py and apps/common/logging.py: the id of a request, on the request, on the
-- response, on the context variable and on every log record. The view that the middleware wraps is
-- an action on the variable and the lines logged so far, and may raise.
use democrance_insurance_api.Prelude.{
  Option, none, some, String, List, [], ◌∷◌, str_eq, if◌then◌else◌,
}

-- A log record as the JSON formatter writes it: its fixed keys, then `extra_fields`.
pub record LogRecord : Type 0 where
  pub level : String
  pub logger : String
  pub message : String
  pub request_id : Option String
  pub extra_fields : List (String × String)

-- `request_id_var`, whose default is "-", and the records that were handled, newest first.
pub record Context : Type 0 where
  pub request_id_var : String
  pub lines : List LogRecord

-- `RequestIDFilter.filter` on a record that is being handled.
unfoldable pub log : LogRecord → Context → Context
log line ctx = record ctx {
  lines = record line { request_id = some ctx.request_id_var } ∷ ctx.lines;
}

-- `getattr(record, "request_id", "-")`
abbrev pub shown_id : Option String → String
shown_id none = "-"
shown_id (some id) = id

-- `payload[key] = value` on a dict: in place for a key that is there, else at the end.
unfoldable pub put : String → String → List (String × String) → List (String × String)
put key value [] = (key, value) ∷ []
put key value ((k, v) ∷ entries) =
    if str_eq k key then (k, value) ∷ entries else (k, v) ∷ put key value entries

unfoldable pub put_all : List (String × String) → List (String × String) → List (String × String)
unfolding put
put_all [] entries = entries
put_all ((key, value) ∷ more) entries = put_all more (put key value entries)

-- The payload of `JSONFormatter.format`, given the text of the time and of `exc_info`.
unfoldable pub format : String → Option String → LogRecord → List (String × String)
unfolding put_all
format ts none line = put_all line.extra_fields (
    ("ts", ts)
    ∷ ("level", line.level)
    ∷ ("logger", line.logger)
    ∷ ("message", line.message)
    ∷ ("request_id", shown_id line.request_id)
    ∷ [])
format ts (some trace) line = put_all line.extra_fields (
    ("ts", ts)
    ∷ ("level", line.level)
    ∷ ("logger", line.logger)
    ∷ ("message", line.message)
    ∷ ("request_id", shown_id line.request_id)
    ∷ ("exc_info", trace)
    ∷ [])

-- How a view ends: with a response and its headers, or with an exception.
pub data Ending (R E : Type 0) : Type 0 where
  response : R → List (String × String) → Ending R E
  raised : E → Ending R E

-- `request.headers.get(HEADER) or uuid.uuid4().hex`
unfoldable pub request_id_of : Option String → String → String
request_id_of none minted = minted
request_id_of (some id) minted = if str_eq id "" then minted else id

-- `get_response`, which sees `request.id`.
abbrev pub View : Type 0 → Type 0 → Type 0
View R E = String → Context → Ending R E × Context

module _ {R E : Type 0} where
  -- `response[HEADER] = request_id`, which an exception skips.
  abbrev pub stamp : String → Ending R E → Ending R E
  stamp id (response r headers) = response r (put "X-Request-ID" id headers)
  stamp id (raised e) = raised e

  -- `RequestIDMiddleware.__call__`; the variable is reset on both ways out.
  unfoldable pub call : View R E → Option String → String → Context → Ending R E × Context
  unfolding request_id_of put
  call view header minted ctx =
      let id = request_id_of header minted in
      let (ending, after) = view id (record ctx { request_id_var = id }) in
      (stamp id ending, record after { request_id_var = ctx.request_id_var })
