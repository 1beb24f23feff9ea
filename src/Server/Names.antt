-- ===== src/Server/Names.antt =====
-- The names of the metrics, labels and headers of src/server/mod.rs, as texts.
use monnok_gigastt.Base.{[], ◌∷◌}
use monnok_gigastt.Words.{Text}

abbrev pub http_requests_total : Text
http_requests_total =
    b'g' ∷ b'i' ∷ b'g' ∷ b'a' ∷ b's' ∷ b't' ∷ b't' ∷ b'_' ∷ b'h' ∷ b't' ∷ b't' ∷ b'p' ∷ b'_' ∷ b'r'
    ∷ b'e' ∷ b'q' ∷ b'u' ∷ b'e' ∷ b's' ∷ b't' ∷ b's' ∷ b'_' ∷ b't' ∷ b'o' ∷ b't' ∷ b'a' ∷ b'l' ∷ []

abbrev pub http_request_duration_seconds : Text
http_request_duration_seconds =
    b'g' ∷ b'i' ∷ b'g' ∷ b'a' ∷ b's' ∷ b't' ∷ b't' ∷ b'_' ∷ b'h' ∷ b't' ∷ b't' ∷ b'p' ∷ b'_' ∷ b'r'
    ∷ b'e' ∷ b'q' ∷ b'u' ∷ b'e' ∷ b's' ∷ b't' ∷ b'_' ∷ b'd' ∷ b'u' ∷ b'r' ∷ b'a' ∷ b't' ∷ b'i'
    ∷ b'o' ∷ b'n' ∷ b'_' ∷ b's' ∷ b'e' ∷ b'c' ∷ b'o' ∷ b'n' ∷ b'd' ∷ b's' ∷ []

abbrev pub pool_available : Text
pool_available =
    b'g' ∷ b'i' ∷ b'g' ∷ b'a' ∷ b's' ∷ b't' ∷ b't' ∷ b'_' ∷ b'p' ∷ b'o' ∷ b'o' ∷ b'l' ∷ b'_' ∷ b'a'
    ∷ b'v' ∷ b'a' ∷ b'i' ∷ b'l' ∷ b'a' ∷ b'b' ∷ b'l' ∷ b'e' ∷ []

abbrev pub pool_checkout_duration_seconds : Text
pool_checkout_duration_seconds =
    b'g' ∷ b'i' ∷ b'g' ∷ b'a' ∷ b's' ∷ b't' ∷ b't' ∷ b'_' ∷ b'p' ∷ b'o' ∷ b'o' ∷ b'l' ∷ b'_' ∷ b'c'
    ∷ b'h' ∷ b'e' ∷ b'c' ∷ b'k' ∷ b'o' ∷ b'u' ∷ b't' ∷ b'_' ∷ b'd' ∷ b'u' ∷ b'r' ∷ b'a' ∷ b't'
    ∷ b'i' ∷ b'o' ∷ b'n' ∷ b'_' ∷ b's' ∷ b'e' ∷ b'c' ∷ b'o' ∷ b'n' ∷ b'd' ∷ b's' ∷ []

abbrev pub pool_timeouts_total : Text
pool_timeouts_total =
    b'g' ∷ b'i' ∷ b'g' ∷ b'a' ∷ b's' ∷ b't' ∷ b't' ∷ b'_' ∷ b'p' ∷ b'o' ∷ b'o' ∷ b'l' ∷ b'_' ∷ b't'
    ∷ b'i' ∷ b'm' ∷ b'e' ∷ b'o' ∷ b'u' ∷ b't' ∷ b's' ∷ b'_' ∷ b't' ∷ b'o' ∷ b't' ∷ b'a' ∷ b'l' ∷ []

abbrev pub ws_active_connections : Text
ws_active_connections =
    b'g' ∷ b'i' ∷ b'g' ∷ b'a' ∷ b's' ∷ b't' ∷ b't' ∷ b'_' ∷ b'w' ∷ b's' ∷ b'_' ∷ b'a' ∷ b'c' ∷ b't'
    ∷ b'i' ∷ b'v' ∷ b'e' ∷ b'_' ∷ b'c' ∷ b'o' ∷ b'n' ∷ b'n' ∷ b'e' ∷ b'c' ∷ b't' ∷ b'i' ∷ b'o'
    ∷ b'n' ∷ b's' ∷ []

abbrev pub inference_duration_seconds : Text
inference_duration_seconds =
    b'g' ∷ b'i' ∷ b'g' ∷ b'a' ∷ b's' ∷ b't' ∷ b't' ∷ b'_' ∷ b'i' ∷ b'n' ∷ b'f' ∷ b'e' ∷ b'r' ∷ b'e'
    ∷ b'n' ∷ b'c' ∷ b'e' ∷ b'_' ∷ b'd' ∷ b'u' ∷ b'r' ∷ b'a' ∷ b't' ∷ b'i' ∷ b'o' ∷ b'n' ∷ b'_'
    ∷ b's' ∷ b'e' ∷ b'c' ∷ b'o' ∷ b'n' ∷ b'd' ∷ b's' ∷ []

abbrev pub rate_limit_rejections_total : Text
rate_limit_rejections_total =
    b'g' ∷ b'i' ∷ b'g' ∷ b'a' ∷ b's' ∷ b't' ∷ b't' ∷ b'_' ∷ b'r' ∷ b'a' ∷ b't' ∷ b'e' ∷ b'_' ∷ b'l'
    ∷ b'i' ∷ b'm' ∷ b'i' ∷ b't' ∷ b'_' ∷ b'r' ∷ b'e' ∷ b'j' ∷ b'e' ∷ b'c' ∷ b't' ∷ b'i' ∷ b'o'
    ∷ b'n' ∷ b's' ∷ b'_' ∷ b't' ∷ b'o' ∷ b't' ∷ b'a' ∷ b'l' ∷ []

abbrev pub method_label : Text
method_label = b'm' ∷ b'e' ∷ b't' ∷ b'h' ∷ b'o' ∷ b'd' ∷ []

abbrev pub path_label : Text
path_label = b'p' ∷ b'a' ∷ b't' ∷ b'h' ∷ []

abbrev pub status_label : Text
status_label = b's' ∷ b't' ∷ b'a' ∷ b't' ∷ b'u' ∷ b's' ∷ []

abbrev pub allow_origin : Text
allow_origin =
    b'a' ∷ b'c' ∷ b'c' ∷ b'e' ∷ b's' ∷ b's' ∷ b'-' ∷ b'c' ∷ b'o' ∷ b'n' ∷ b't' ∷ b'r' ∷ b'o' ∷ b'l'
    ∷ b'-' ∷ b'a' ∷ b'l' ∷ b'l' ∷ b'o' ∷ b'w' ∷ b'-' ∷ b'o' ∷ b'r' ∷ b'i' ∷ b'g' ∷ b'i' ∷ b'n' ∷ []

abbrev pub allow_methods : Text
allow_methods =
    b'a' ∷ b'c' ∷ b'c' ∷ b'e' ∷ b's' ∷ b's' ∷ b'-' ∷ b'c' ∷ b'o' ∷ b'n' ∷ b't' ∷ b'r' ∷ b'o' ∷ b'l'
    ∷ b'-' ∷ b'a' ∷ b'l' ∷ b'l' ∷ b'o' ∷ b'w' ∷ b'-' ∷ b'm' ∷ b'e' ∷ b't' ∷ b'h' ∷ b'o' ∷ b'd'
    ∷ b's' ∷ []

abbrev pub allow_headers : Text
allow_headers =
    b'a' ∷ b'c' ∷ b'c' ∷ b'e' ∷ b's' ∷ b's' ∷ b'-' ∷ b'c' ∷ b'o' ∷ b'n' ∷ b't' ∷ b'r' ∷ b'o' ∷ b'l'
    ∷ b'-' ∷ b'a' ∷ b'l' ∷ b'l' ∷ b'o' ∷ b'w' ∷ b'-' ∷ b'h' ∷ b'e' ∷ b'a' ∷ b'd' ∷ b'e' ∷ b'r'
    ∷ b's' ∷ []

abbrev pub vary : Text
vary = b'v' ∷ b'a' ∷ b'r' ∷ b'y' ∷ []

abbrev pub retry_after : Text
retry_after = b'r' ∷ b'e' ∷ b't' ∷ b'r' ∷ b'y' ∷ b'-' ∷ b'a' ∷ b'f' ∷ b't' ∷ b'e' ∷ b'r' ∷ []

abbrev pub deprecation : Text
deprecation = b'd' ∷ b'e' ∷ b'p' ∷ b'r' ∷ b'e' ∷ b'c' ∷ b'a' ∷ b't' ∷ b'i' ∷ b'o' ∷ b'n' ∷ []

abbrev pub link : Text
link = b'l' ∷ b'i' ∷ b'n' ∷ b'k' ∷ []

abbrev pub any_origin : Text
any_origin = b'*' ∷ []

abbrev pub methods_text : Text
methods_text =
    b'G' ∷ b'E' ∷ b'T' ∷ b',' ∷ b' ' ∷ b'P' ∷ b'O' ∷ b'S' ∷ b'T' ∷ b',' ∷ b' ' ∷ b'O' ∷ b'P' ∷ b'T'
    ∷ b'I' ∷ b'O' ∷ b'N' ∷ b'S' ∷ []

abbrev pub origin_text : Text
origin_text = b'o' ∷ b'r' ∷ b'i' ∷ b'g' ∷ b'i' ∷ b'n' ∷ []

abbrev pub sixty : Text
sixty = b'6' ∷ b'0' ∷ []

abbrev pub true_text : Text
true_text = b't' ∷ b'r' ∷ b'u' ∷ b'e' ∷ []

abbrev pub successor_link : Text
successor_link =
    b'<' ∷ b'/' ∷ b'v' ∷ b'1' ∷ b'/' ∷ b'w' ∷ b's' ∷ b'>' ∷ b';' ∷ b' ' ∷ b'r' ∷ b'e' ∷ b'l' ∷ b'='
    ∷ b'"' ∷ b's' ∷ b'u' ∷ b'c' ∷ b'c' ∷ b'e' ∷ b's' ∷ b's' ∷ b'o' ∷ b'r' ∷ b'-' ∷ b'v' ∷ b'e'
    ∷ b'r' ∷ b's' ∷ b'i' ∷ b'o' ∷ b'n' ∷ b'"' ∷ []

abbrev pub local_host : Text
local_host = b'1' ∷ b'2' ∷ b'7' ∷ b'.' ∷ b'0' ∷ b'.' ∷ b'0' ∷ b'.' ∷ b'1' ∷ []
