-- ===== src/Service/Errors.antt =====
-- internal/service/errors.go: the code and the message that a client is told of an error.
use cloud_native_entry_task.Prelude.{String}
use cloud_native_entry_task.GoLib.Errors.{
  Error, bad_request, unauthorized, not_found, payload_too_large, unsupported_type, app_error,
  wrapped,
}

unfoldable pub error_code : Error → String × String
error_code (app_error code message cause) = (code, message)
error_code (wrapped message cause) = error_code cause
error_code bad_request = ("bad_request", "Invalid request.")
error_code unauthorized = ("unauthorized", "Authentication failed.")
error_code not_found = ("not_found", "Resource not found.")
error_code payload_too_large = ("payload_too_large", "Uploaded file is too large.")
error_code unsupported_type = ("unsupported_media_type", "Unsupported file type.")
error_code _ = ("internal_error", "Internal server error.")
