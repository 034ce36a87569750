-- ===== src/Errors/Value.antt =====
-- pkg/errors/errors.go: structured errors and the chains that wrapping makes.
-- Context, which nothing reads, and the printed form are left out; a message is a name for its text.
use go_tor.Prelude.{ℕ, Bool, true, false}

pub data ErrorCategory : Type 0 where
  connection circuit directory protocol crypto configuration timeout network internal :
      ErrorCategory

pub data Severity : Type 0 where
  low medium high critical : Severity

-- The texts that retry.go and breaker.go put around an error or into one.
pub data Message : Type 0 where
  retry_cancelled cancelled_during_backoff breaker_is_open breaker_is_half_open : Message
  attempts_exceeded : ℕ → Message
  other_text : ℕ → Message

-- The fields of a TorError other than `Underlying`.
pub record TorError : Type 0 where
  pub category : ErrorCategory
  pub severity : Severity
  pub message : Message
  pub retryable : Bool

-- An `error` of Go: nil, an error of other code that wraps nothing, `fmt.Errorf("…: %w", err)`,
-- or a TorError over its `Underlying`.
pub data Error : Type 0 where
  nil : Error
  foreign : ℕ → Error
  wrapped : Message → Error → Error
  tor : TorError → Error → Error

abbrev pub is_nil : Error → Bool
is_nil nil = true
is_nil _ = false

unfoldable pub new_error : ErrorCategory → Severity → Message → Error
new_error c s m = tor (record { category = c; severity = s; message = m; retryable = false }) nil

unfoldable pub wrap : ErrorCategory → Severity → Message → Error → Error
wrap c s m e = tor (record { category = c; severity = s; message = m; retryable = false }) e

unfoldable pub new_retryable : ErrorCategory → Severity → Message → Error
new_retryable c s m = tor (record { category = c; severity = s; message = m; retryable = true }) nil

unfoldable pub wrap_retryable : ErrorCategory → Severity → Message → Error → Error
wrap_retryable c s m e =
    tor (record { category = c; severity = s; message = m; retryable = true }) e

-- The constructors from `ConnectionError` to `InternalError`.
unfoldable pub error_of : ErrorCategory → Message → Error → Error
unfolding wrap wrap_retryable
error_of protocol m e = wrap protocol high m e
error_of crypto m e = wrap crypto high m e
error_of configuration m e = wrap configuration critical m e
error_of internal m e = wrap internal high m e
error_of c m e = wrap_retryable c medium m e

-- `errors.As(err, &torErr)` followed by `return torErr.Retryable`: the outermost TorError decides.
unfoldable pub is_retryable : Error → Bool
is_retryable nil = false
is_retryable (foreign n) = false
is_retryable (wrapped m e) = is_retryable e
is_retryable (tor t e) = t.retryable

unfoldable pub get_category : Error → ErrorCategory
get_category nil = internal
get_category (foreign n) = internal
get_category (wrapped m e) = get_category e
get_category (tor t e) = t.category

unfoldable pub get_severity : Error → Severity
get_severity nil = medium
get_severity (foreign n) = medium
get_severity (wrapped m e) = get_severity e
get_severity (tor t e) = t.severity
