-- ===== src/Gateway/Status.antt =====
-- internal/httpapi/server.go: the status for an error code.
use cloud_native_entry_task.Prelude.{ℕ, String, str_eq, ◌||◌, if◌then◌else◌}

abbrev pub status_ok : ℕ
status_ok = 200

abbrev pub status_bad_request : ℕ
status_bad_request = 400

abbrev pub status_unauthorized : ℕ
status_unauthorized = 401

abbrev pub status_not_found : ℕ
status_not_found = 404

abbrev pub status_entity_too_large : ℕ
status_entity_too_large = 413

abbrev pub status_unsupported_media_type : ℕ
status_unsupported_media_type = 415

abbrev pub status_too_many_requests : ℕ
status_too_many_requests = 429

abbrev pub status_internal_error : ℕ
status_internal_error = 500

abbrev pub status_bad_gateway : ℕ
status_bad_gateway = 502

unfoldable pub status_for : String → ℕ
status_for code =
    if str_eq code "unauthorized" || str_eq code "invalid_credentials"
    then status_unauthorized
    else if str_eq code "not_found"
    then status_not_found
    else if str_eq code "payload_too_large"
    then status_entity_too_large
    else if str_eq code "unsupported_media_type"
    then status_unsupported_media_type
    else if str_eq code "server_busy"
    then status_too_many_requests
    else if str_eq code "bad_request"
        || (str_eq code "invalid_nickname"
            || (str_eq code "invalid_upload" || str_eq code "unknown_operation"))
    then status_bad_request
    else status_internal_error
