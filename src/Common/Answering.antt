-- ===== src/Common/Answering.antt =====
-- What the handler of apps/common/exceptions.py makes of an exception.
use democrance_insurance_api.Prelude.{
  ◌≡◌, refl, ap, String, Option, none, some, Bool-cases, false, str_eq, ℕ, inl, inr,
}
use democrance_insurance_api.Common.Errors.{ErrorCode, code_value, status_to_code}
use democrance_insurance_api.Common.Handler.{
  Content, Answer, Framework, mapped_code, code_of, envelop, answer, custom_exception_handler,
}

code_value-ne-empty : (code : ErrorCode) → str_eq (code_value code) "" ≡ false
code_value-ne-empty ErrorCode.validation = refl
code_value-ne-empty ErrorCode.authentication_failed = refl
code_value-ne-empty ErrorCode.permission_denied = refl
code_value-ne-empty ErrorCode.not_found = refl
code_value-ne-empty ErrorCode.method_not_allowed = refl
code_value-ne-empty ErrorCode.invalid_state_transition = refl
code_value-ne-empty ErrorCode.duplicate_request = refl
code_value-ne-empty ErrorCode.throttled = refl
code_value-ne-empty ErrorCode.server_error = refl

module _ {Exc V : Type 0} (f : Framework Exc V) where
  mapped_code-ne-empty : (o : Option ErrorCode) → str_eq (mapped_code f o) "" ≡ false
  mapped_code-ne-empty none = refl
  mapped_code-ne-empty (some code) = code_value-ne-empty code

  code_of-ne-empty : (o : Option String) (status : ℕ) → str_eq (code_of f o status) "" ≡ false
  code_of-ne-empty none status = mapped_code-ne-empty (status_to_code status)
  code_of-ne-empty (some code) status = elim (Bool-cases (str_eq code "")) [
    | inl empty ↦ rw empty (mapped_code-ne-empty (status_to_code status))
    | inr full ↦ rw full full
  ]

  -- How an exception that the framework answers is answered here.
  pub record IsEnveloped (exc : Exc) (status : ℕ) (a : Answer V) : Type 0 where
    pub answered : custom_exception_handler f exc ≡ some a
    pub same_status : a.status ≡ status
    pub coded : str_eq a.error.code "" ≡ false
    pub explicit_first :
        (code : String)
        → f.explicit (f.as_drf exc) ≡ some code
        → str_eq code "" ≡ false
        → a.error.code ≡ code
    pub else_mapped :
        f.explicit (f.as_drf exc) ≡ none → a.error.code ≡ mapped_code f (status_to_code status)

  -- An exception that the framework answers with a status is answered with an envelope of the same
  -- status whose code is not empty: the exception's own code where it has one that is not empty,
  -- and the mapped code of the status where it has none.
  pub handler-IsEnveloped :
      (exc : Exc) (status : ℕ) (content : Content V)
      → f.drf (f.as_drf exc) ≡ some (status, content)
      → (a : Answer V) × IsEnveloped exc status a
  unfolding custom_exception_handler
  handler-IsEnveloped exc status content e = (
    envelop f (f.as_drf exc) status content,
    record {
      answered = ap (answer f (f.as_drf exc)) e;
      same_status = refl;
      coded = code_of-ne-empty (f.explicit (f.as_drf exc)) status;
      explicit_first = λ code given full. rw (given, full) refl;
      else_mapped = λ absent. rw absent refl;
    },
  )
