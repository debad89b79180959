-- ===== src/Queue/Errors.antt =====
-- src/rulekiln/workers/error_classification.py: which failures of a run are worth another attempt.
use rule_kiln.Prelude.{
  ℕ, ◌≡◌, Bool, true, false, ◌&&◌, ◌||◌, Option, none, some, List, [], ◌∷◌, String, str_eq, any,
  is_some, if◌then◌else◌, ◌==◌,
}
use text.Mathlib.Text.{find?}

-- The exception classes that the code tests for.
pub data ExceptionType : Type 0 where
  value_error type_error key_error permission_error file_not_found_error : ExceptionType
  request_validation_error provider_not_configured provider_not_implemented : ExceptionType
  validation_error timeout_error connection_error os_error : ExceptionType
  httpx_timeout httpx_network httpx_transport : ExceptionType

-- A raised exception: the name of its class, those of the tested classes that it is an instance of,
-- its `errno` if it has one, and its text, stripped.
pub record Exc : Type 0 where
  pub type_name : String
  pub instance_of : List ExceptionType
  pub errno : Option ℕ
  pub text : String

pub record ErrorClassification : Type 0 where
  pub retryable : Bool
  pub error_type : String

abbrev pub is_terminal_type : ExceptionType → Bool
is_terminal_type ExceptionType.value_error = true
is_terminal_type ExceptionType.type_error = true
is_terminal_type ExceptionType.key_error = true
is_terminal_type ExceptionType.permission_error = true
is_terminal_type ExceptionType.file_not_found_error = true
is_terminal_type ExceptionType.request_validation_error = true
is_terminal_type ExceptionType.provider_not_configured = true
is_terminal_type ExceptionType.provider_not_implemented = true
is_terminal_type ExceptionType.validation_error = true
is_terminal_type _ = false

abbrev pub is_retryable_type : ExceptionType → Bool
is_retryable_type ExceptionType.timeout_error = true
is_retryable_type ExceptionType.connection_error = true
is_retryable_type _ = false

abbrev pub is_os_error : ExceptionType → Bool
is_os_error ExceptionType.os_error = true
is_os_error _ = false

abbrev pub is_httpx_retryable : ExceptionType → Bool
is_httpx_retryable ExceptionType.httpx_timeout = true
is_httpx_retryable ExceptionType.httpx_network = true
is_httpx_retryable ExceptionType.httpx_transport = true
is_httpx_retryable _ = false

-- `{104, 110, 111, 113}`
abbrev pub is_retryable_errno : Option ℕ → Bool
is_retryable_errno none = false
is_retryable_errno (some n) = n == 104 || n == 110 || n == 111 || n == 113

abbrev pub retryable_substrings : List String
retryable_substrings =
    "connection refused" ∷ "connection reset" ∷ "temporarily unavailable" ∷ "timed out" ∷ "timeout"
    ∷ "502" ∷ "503" ∷ "504" ∷ "rate limit" ∷ "too many requests" ∷ []

-- A stable text that is not empty: the exception's, or else the name of its class.
unfoldable pub format_worker_error_message : Exc → String
format_worker_error_message e = if str_eq e.text "" then e.type_name else e.text

-- `lower` is Python's `str.lower`, and `httpx` says whether that package could be imported.
module _ (lower : String → String) (httpx : Bool) where
  unfoldable pub classify_worker_error : Exc → ErrorClassification
  unfolding format_worker_error_message
  classify_worker_error e =
      let verdict = λ (b : Bool).
        let c : ErrorClassification = record { retryable = b; error_type = e.type_name } in c in
      if any is_terminal_type e.instance_of
      then verdict false
      else if any is_retryable_type e.instance_of
      then verdict true
      else if any is_os_error e.instance_of && is_retryable_errno e.errno
      then verdict true
      else if httpx && any is_httpx_retryable e.instance_of
      then verdict true
      else if any (λ token. is_some (find? (lower (format_worker_error_message e)) token))
          retryable_substrings
      then verdict true
      else verdict false

  -- An exception of a terminal class is never retryable, also if it is of a retryable class too or
  -- its text names a retryable condition.
  pub classify_worker_error-terminal :
      (e : Exc)
      → any is_terminal_type e.instance_of ≡ true
      → (classify_worker_error e).retryable ≡ false
  unfolding classify_worker_error
  classify_worker_error-terminal e h = rw h
