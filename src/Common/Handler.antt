-- ===== src/Common/Handler.antt =====
-- apps/common/exceptions.py: the one envelope for every failure. Exceptions, the values in a
-- response and DRF's own handler are parameters: `explicit` and `extra` are the attributes
-- `error_code` and `extra_details`, `as_drf` turns a Django ValidationError into DRF's and leaves
-- the others, `drf` is DRF's handler, `str` is Python's.
use democrance_insurance_api.Prelude.{
  ℕ, Option, none, some, String, List, [], ◌∷◌, str_eq, if◌then◌else◌,
}
use democrance_insurance_api.Common.Errors.{status_to_code, ErrorCode, code_value}

-- `response.data`
pub data Content (V : Type 0) : Type 0 where
  dict : List (String × V) → Content V
  items : List V → Content V
  scalar : V → Content V

-- {"error": {"code": …, "message": …, "details": …}}
pub record Envelope (V : Type 0) : Type 0 where
  pub code : String
  pub message : String
  pub details : List (String × V)

pub record Answer (V : Type 0) : Type 0 where
  pub status : ℕ
  pub error : Envelope V

-- What the handler uses of Django REST framework.
pub record Framework (Exc V : Type 0) : Type 0 where
  pub as_drf : Exc → Exc
  pub drf : Exc → Option (ℕ × Content V)
  pub explicit : Exc → Option String
  pub extra : Exc → List (String × V)
  pub str : V → String
  -- `"; ".join(…)` of the texts of the items
  pub joined : List V → String

module _ {Exc V : Type 0} (f : Framework Exc V) where
  open f use {as_drf, drf, explicit, extra, str, joined}

  -- `STATUS_TO_CODE.get(status_code, "error")`
  abbrev pub mapped_code : Option ErrorCode → String
  mapped_code none = "error"
  mapped_code (some code) = code_value code

  -- `_code_for`: an empty code counts as none.
  abbrev pub code_of : Option String → ℕ → String
  code_of none status = mapped_code (status_to_code status)
  code_of (some code) status = if str_eq code "" then mapped_code (status_to_code status) else code

  -- `set(data) == {"detail"}` and the rest of the dict cases.
  abbrev pub dict_message : List (String × V) → List (String × V) → String × List (String × V)
  dict_message ((key, v) ∷ []) more =
      if str_eq key "detail" then (str v, more) else ("Validation failed.", (key, v) ∷ [])
  dict_message entries more = ("Validation failed.", entries)

  -- `_message_and_details`
  unfoldable pub message_and_details : List (String × V) → Content V → String × List (String × V)
  message_and_details more (dict entries) = dict_message entries more
  message_and_details more (items values) =
      (if str_eq (joined values) "" then "Request failed." else joined values, more)
  message_and_details more (scalar v) = (str v, more)

  -- The response with its new data.
  abbrev pub envelop : Exc → ℕ → Content V → Answer V
  envelop exc status content = record {
    status = status;
    error = record {
      code = code_of (explicit exc) status;
      message = (message_and_details (extra exc) content).0;
      details = (message_and_details (extra exc) content).1;
    };
  }

  abbrev pub answer : Exc → Option (ℕ × Content V) → Option (Answer V)
  answer exc none = none
  answer exc (some (status, content)) = some (envelop exc status content)

  -- `custom_exception_handler`
  unfoldable pub custom_exception_handler : Exc → Option (Answer V)
  custom_exception_handler exc = answer (as_drf exc) (drf (as_drf exc))
