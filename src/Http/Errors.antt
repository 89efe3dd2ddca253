-- ===== src/Http/Errors.antt =====
-- `errorStatus` and `errorKind` of internal/transport/http/render.go.
use boreas.Prelude.{ℕ, String, ◌≡◌, refl, ◌==◌, if◌then◌else◌}
use boreas.Prelude.Text.{trim_prefix, cut_text}
use boreas.Core.Errors.{
  Err, ErrKind, invalid_input, not_found, already_exists, conflict, unauthorized, forbidden,
  too_many, other, invalid,
}

-- The status of an error, by the sentinel that it wraps.
unfoldable pub kind_status : ErrKind → ℕ
kind_status invalid_input = 400
kind_status unauthorized = 401
kind_status forbidden = 403
kind_status not_found = 404
kind_status already_exists = 409
kind_status conflict = 409
kind_status too_many = 429
kind_status other = 500

-- The text that is shown: the reason of an invalid input, and of any other error only its kind.
unfoldable pub message : Err → String
unfolding cut_text
message e = elim e.kind [
  | invalid_input ↦ trim_prefix "invalid input\n" e.text
  | unauthorized ↦ "unauthorized"
  | forbidden ↦ "forbidden"
  | not_found ↦ "not found"
  | already_exists ↦ "conflict"
  | conflict ↦ "conflict"
  | too_many ↦ "too many requests"
  | other ↦ "internal server error"
]

unfoldable pub error_status : Err → ℕ × String
unfolding kind_status message
error_status e = (kind_status e.kind, message e)

-- `errorKind`: the name of a status, as the app's ApiErrorKind has it.
unfoldable pub error_kind : ℕ → String
error_kind status =
    if status == 400
    then "invalid-input"
    else if status == 401
    then "unauthorized"
    else if status == 403
    then "forbidden"
    else if status == 404
    then "not-found"
    else if status == 409
    then "conflict"
    else if status == 429
    then "rate-limited"
    else "server"

error_status_test : error_status (invalid "no name") ≡ (400, "no name")
unfolding error_status
error_status_test = refl
