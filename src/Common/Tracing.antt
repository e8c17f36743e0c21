-- ===== src/Common/Tracing.antt =====
-- Every line and every response of a request carries its id: `RequestIDMiddleware` and
-- `RequestIDFilter` of apps/common.
use democrance_insurance_api.Prelude.{
  ℕ, ◌+◌, ◌≡◌, refl, sym, ◌∙◌, Option, none, some, String, List, [], ◌∷◌, ◌++◌, All, length, str_eq,
  eq_refl, if◌then◌else◌, arith,
}
use mathlib.Core.List.{append_assoc}
use democrance_insurance_api.Common.Middleware.{
  LogRecord, Context, log, put, View, Ending, response, raised, request_id_of, call, stamp,
}

-- The records of a view, handled one after the other.
abbrev pub log_all : List LogRecord → Context → Context
log_all [] ctx = ctx
log_all (line ∷ lines) ctx = log_all lines (log line ctx)

-- A view by the records that it logs and by how it ends.
abbrev pub logging_view :
    {R E : Type 0} → (String → List LogRecord) → (String → Ending R E) → View R E
logging_view lines end id ctx = (end id, log_all (lines id) ctx)

-- The lines of `after` that were not in `before`: as many as `count`, all with the id.
pub record Stamped (id : String) (count : ℕ) (before after : List LogRecord) : Type 0 where
  pub fresh : List LogRecord
  pub added : after ≡ fresh ++ before
  pub as_many : length fresh ≡ count
  pub with_id : All (λ line. line.request_id ≡ some id) fresh

length-snoc :
    (lines : List LogRecord) (line : LogRecord) → length (lines ++ (line ∷ [])) ≡ length lines + 1
length-snoc [] line = omega arith
length-snoc (x ∷ lines) line = omega (arith, length-snoc lines line)

All-snoc :
    (P : LogRecord → Type 0) (lines : List LogRecord) (line : LogRecord)
    → All P lines
    → P line
    → All P (lines ++ (line ∷ []))
All-snoc P [] line h p = (p, tt)
All-snoc P (x ∷ lines) line h p = (h.0, All-snoc P lines line h.1 p)

log_all-Stamped :
    (lines : List LogRecord) (ctx : Context)
    → Stamped ctx.request_id_var (length lines) ctx.lines (log_all lines ctx).lines
unfolding log
log_all-Stamped [] ctx = record { fresh = []; added = refl; as_many = refl; with_id = tt }
log_all-Stamped (line ∷ lines) ctx =
    let ih = log_all-Stamped lines (log line ctx) in
    let first = record line { request_id = some ctx.request_id_var } in
    record {
      fresh = ih.fresh ++ (first ∷ []);
      added = ih.added ∙ sym (append_assoc ih.fresh (first ∷ []) ctx.lines);
      as_many = omega (arith, length-snoc ih.fresh first, ih.as_many);
      with_id =
          All-snoc (λ (l : LogRecord). l.request_id ≡ some ctx.request_id_var) ih.fresh first
            ih.with_id refl;
    }

abbrev pub lookup : String → List (String × String) → Option String
lookup key [] = none
lookup key ((k, v) ∷ entries) = if str_eq k key then some v else lookup key entries

lookup-put :
    (key value : String) (entries : List (String × String))
    → lookup key (put key value entries) ≡ some value
unfolding put
lookup-put key value [] = rw (eq_refl key)
lookup-put key value ((k, v) ∷ entries) = ground (arith, eq_refl key, lookup-put key value entries)

-- What a client sees of the id: nothing where an exception got out.
abbrev pub HasId : {R E : Type 0} → String → Ending R E → Type 0
HasId id (response r headers) = lookup "X-Request-ID" headers ≡ some id
HasId id (raised e) = Unit

stamp-HasId : {R E : Type 0} (id : String) (ending : Ending R E) → HasId id (stamp id ending)
stamp-HasId id (response r headers) = lookup-put "X-Request-ID" id headers
stamp-HasId id (raised e) = tt

-- Whatever a view logs and however it ends, every line that it logs carries the id of the request,
-- which is the client's unless that is absent or empty, a response carries it in its header, and
-- the context variable is what it was before.
pub call-Stamped :
    {R E : Type 0} (lines : String → List LogRecord) (end : String → Ending R E)
    (header : Option String) (minted : String) (ctx : Context)
    → let id = request_id_of header minted in
      let (ending, after) = call (logging_view lines end) header minted ctx in
      HasId id ending
      × (after.request_id_var ≡ ctx.request_id_var)
      × Stamped id (length (lines id)) ctx.lines after.lines
unfolding call
call-Stamped lines end header minted ctx =
    let id = request_id_of header minted in
    (stamp-HasId id (end id), refl, log_all-Stamped (lines id) (record ctx { request_id_var = id }))
