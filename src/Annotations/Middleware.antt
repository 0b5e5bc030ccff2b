-- ===== src/Annotations/Middleware.antt =====
-- pkg/annotations/middleware.go: the middlewares that a service's annotations ask for.
pub mod Asked
use maesh.Common.{
  String, List, [], ◌∷◌, Option, none, some, Result, ok, err, ◌>>=◌, insert, ◌||◌, if◌then◌else◌,
  string_eq, ℕ,
}
use maesh.Common.Ints.{ℤ, is_not_positive}
use maesh.Annotations.{
  Labels, AnnotationError, not_found, not_positive, get_retry_attempts, get_rate_limit_burst,
  get_rate_limit_average, get_circuit_breaker_expression,
}

-- dynamic.Middleware, with the one field that the program sets. `ip_white_list` has the source range
-- and the depth of the IP strategy, if there is one.
pub data Middleware : Type 0 where
  retry : ℤ → Middleware
  rate_limit : ℤ → ℤ → Middleware
  circuit_breaker : String → Middleware
  ip_white_list : List String → Option ℕ → Middleware

abbrev pub Built : Type 0
Built = Result AnnotationError (Option (String × Middleware))

-- A getter's result: ErrNotFound is no error for the builder, and builds nothing.
abbrev pub unless_not_found : {A : Type 0} → Result AnnotationError A → (A → Built) → Built
unless_not_found (ok a) build = build a
unless_not_found (err not_found) build = ok none
unless_not_found (err e) build = err e

unfoldable pub build_retry_middleware : Labels → Built
build_retry_middleware annotations =
    unless_not_found (get_retry_attempts annotations)
      λ attempts. ok (some ("retry", retry attempts))

unfoldable pub build_rate_limit_middleware : Labels → Built
build_rate_limit_middleware annotations =
    unless_not_found (get_rate_limit_burst annotations) λ burst.
      unless_not_found (get_rate_limit_average annotations) λ average.
        if is_not_positive burst || is_not_positive average
        then err not_positive
        else ok (some ("rate-limit", rate_limit burst average))

unfoldable pub build_circuit_breaker_middleware : Labels → Built
build_circuit_breaker_middleware annotations =
    unless_not_found (get_circuit_breaker_expression annotations)
      λ expression. ok (some ("circuit-breaker", circuit_breaker expression))

abbrev pub Middlewares : Type 0
Middlewares = List (String × Middleware)

abbrev pub with_built : Middlewares → Option (String × Middleware) → Middlewares
with_built ms none = ms
with_built ms (some (name, m)) = insert name m ms

-- The loop of BuildMiddlewares over its builders.
unfoldable pub run_builders :
    List (Labels → Built) → Labels → Middlewares → Result AnnotationError Middlewares
run_builders [] annotations ms = ok ms
run_builders (builder ∷ builders) annotations ms =
    builder annotations >>= λ built. run_builders builders annotations (with_built ms built)

-- BuildMiddlewares
unfoldable pub build_middlewares : Labels → Result AnnotationError Middlewares
unfolding run_builders
build_middlewares annotations =
    run_builders
      (build_retry_middleware ∷ build_rate_limit_middleware ∷ build_circuit_breaker_middleware ∷ [])
      annotations []
