-- ===== src/Annotations.antt =====
-- pkg/annotations/annotations.go: the values of a service's annotations.
pub mod Middleware
mod Tests
use maesh.Common.{
  Bool, String, List, Option, none, some, Result, ok, err, lookup, ◌==◌, ◌||◌, if◌then◌else◌,
  string_eq,
}
use maesh.Common.Ints.{ℤ, atoi}

abbrev pub service_type_http : String
service_type_http = "http"

abbrev pub service_type_tcp : String
service_type_tcp = "tcp"

abbrev pub service_type_udp : String
service_type_udp = "udp"

abbrev pub scheme_http : String
scheme_http = "http"

abbrev pub scheme_h2c : String
scheme_h2c = "h2c"

abbrev pub scheme_https : String
scheme_https = "https"

abbrev pub annotation_service_type : String
annotation_service_type = "mesh.traefik.io/traffic-type"

abbrev pub annotation_scheme : String
annotation_scheme = "mesh.traefik.io/scheme"

abbrev pub annotation_retry_attempts : String
annotation_retry_attempts = "mesh.traefik.io/retry-attempts"

abbrev pub annotation_circuit_breaker_expression : String
annotation_circuit_breaker_expression = "mesh.traefik.io/circuit-breaker-expression"

abbrev pub annotation_rate_limit_average : String
annotation_rate_limit_average = "mesh.traefik.io/ratelimit-average"

abbrev pub annotation_rate_limit_burst : String
annotation_rate_limit_burst = "mesh.traefik.io/ratelimit-burst"

-- A map[string]string.
abbrev pub Labels : Type 0
Labels = List (String × String)

-- `not_found` is ErrNotFound; the others name the annotation or hold its value.
pub data AnnotationError : Type 0 where
  not_found : AnnotationError
  unsupported_traffic_type : String → AnnotationError
  unsupported_scheme : String → AnnotationError
  invalid_value : String → AnnotationError
  not_positive : AnnotationError

abbrev is_traffic_type : String → Bool
is_traffic_type t = t == service_type_http || t == service_type_tcp || t == service_type_udp

abbrev is_scheme : String → Bool
is_scheme s = s == scheme_http || s == scheme_h2c || s == scheme_https

-- GetTrafficType
unfoldable pub get_traffic_type : String → Labels → Result AnnotationError String
get_traffic_type default annotations = elim (lookup annotation_service_type annotations) [
  | none ↦ ok default
  | some t ↦ if is_traffic_type t then ok t else err (unsupported_traffic_type t)
]

-- GetScheme
unfoldable pub get_scheme : Labels → Result AnnotationError String
get_scheme annotations = elim (lookup annotation_scheme annotations) [
  | none ↦ ok scheme_http
  | some s ↦ if is_scheme s then ok s else err (unsupported_scheme s)
]

-- The integer of an annotation: `strconv.Atoi` on its value.
int_value : String → Option ℤ → Result AnnotationError ℤ
int_value name none = err (invalid_value name)
int_value name (some n) = ok n

get_int : String → Labels → Result AnnotationError ℤ
unfolding int_value
get_int name annotations = elim (lookup name annotations) [
  | none ↦ err not_found
  | some v ↦ int_value name (atoi v)
]

-- GetRetryAttempts
unfoldable pub get_retry_attempts : Labels → Result AnnotationError ℤ
unfolding get_int
get_retry_attempts annotations = get_int annotation_retry_attempts annotations

-- GetCircuitBreakerExpression
unfoldable pub get_circuit_breaker_expression : Labels → Result AnnotationError String
get_circuit_breaker_expression annotations =
    elim (lookup annotation_circuit_breaker_expression annotations) [
      | none ↦ err not_found
      | some v ↦ ok v
    ]

-- GetRateLimitBurst
unfoldable pub get_rate_limit_burst : Labels → Result AnnotationError ℤ
unfolding get_int
get_rate_limit_burst annotations = get_int annotation_rate_limit_burst annotations

-- GetRateLimitAverage
unfoldable pub get_rate_limit_average : Labels → Result AnnotationError ℤ
unfolding get_int
get_rate_limit_average annotations = get_int annotation_rate_limit_average annotations
