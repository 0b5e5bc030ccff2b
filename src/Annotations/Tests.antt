-- ===== src/Annotations/Tests.antt =====
-- Runs of BuildMiddlewares.
use maesh.Common.{[], ◌∷◌, ◌≡◌, refl, ok, lookup, insert, string_eq}
use maesh.Common.Ints.{pos, atoi}
use maesh.Annotations.{
  Labels, get_retry_attempts, get_rate_limit_burst, get_rate_limit_average,
  get_circuit_breaker_expression,
}
use maesh.Annotations.Middleware.{
  Middlewares, retry, rate_limit, build_middlewares, run_builders, build_retry_middleware,
  build_rate_limit_middleware, build_circuit_breaker_middleware,
}
use maesh.Annotations.Middleware.Asked.{IsAsked, build_middlewares-IsAsked}

abbrev annotated : Labels
annotated =
    ("mesh.traefik.io/retry-attempts", "3")
    ∷ ("mesh.traefik.io/ratelimit-burst", "20")
    ∷ ("mesh.traefik.io/ratelimit-average", "10")
    ∷ []

abbrev built : Middlewares
built = ("retry", retry (pos 3)) ∷ ("rate-limit", rate_limit (pos 20) (pos 10)) ∷ []

built_eq : build_middlewares annotated ≡ ok built
unfolding build_middlewares run_builders build_retry_middleware build_rate_limit_middleware
    build_circuit_breaker_middleware get_retry_attempts get_rate_limit_burst get_rate_limit_average
    get_circuit_breaker_expression lookup insert atoi
built_eq = refl

build_middlewares-IsAsked_example : IsAsked annotated built
build_middlewares-IsAsked_example = build_middlewares-IsAsked annotated built built_eq
