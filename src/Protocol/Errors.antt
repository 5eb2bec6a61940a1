-- ===== src/Protocol/Errors.antt =====
-- core/protocol/error_codes.py: the error codes and what each means for the operation that it is about.
use peerc.Common.{Bool, true, false, Option, String}

pub data ErrorCode : Type 0 where
  auth_failed policy_denied protocol_mismatch invalid_frame invalid_state transfer_not_found :
      ErrorCode
  size_exceeded disk_full checksum_mismatch transfer_expired rate_limited internal_error : ErrorCode

-- `CONTRACTS[code].retryable`
unfoldable pub is_retryable : ErrorCode → Bool
is_retryable invalid_state = true
is_retryable disk_full = true
is_retryable transfer_expired = true
is_retryable rate_limited = true
is_retryable _ = false

-- `CONTRACTS[code].terminal`
unfoldable pub is_terminal_code : ErrorCode → Bool
is_terminal_code invalid_state = false
is_terminal_code rate_limited = false
is_terminal_code _ = true

-- The part of a parsed `error` that a transfer session reads.
pub record ErrorInfo : Type 0 where
  pub code : ErrorCode
  pub transfer_id : Option String
