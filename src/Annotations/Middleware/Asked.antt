-- ===== src/Annotations/Middleware/Asked.antt =====
-- BuildMiddlewares, pkg/annotations/middleware.go: a service gets the middlewares that its annotations ask
-- for.
use maesh.Common.{
  String, false, Option, none, some, Result, ok, err, ◌≡◌, ◌⊎◌, inl, inr, refl, sym, subst, [],
  Bool-cases, lookup, lookup-insert, ◌==◌, eq_iff, ◌∙◌, string_eq, ◌||◌, if◌then◌else◌, ◌>>=◌,
}
use maesh.Common.Ints.{ℤ, is_not_positive}
use maesh.Annotations.{
  Labels, AnnotationError, not_found, not_positive, invalid_value, unsupported_scheme,
  unsupported_traffic_type, get_retry_attempts, get_rate_limit_burst, get_rate_limit_average,
  get_circuit_breaker_expression,
}
use maesh.Annotations.Middleware.{
  Middleware, Middlewares, retry, rate_limit, circuit_breaker, Built, unless_not_found,
  build_retry_middleware, build_rate_limit_middleware, build_circuit_breaker_middleware,
  build_middlewares, run_builders, with_built,
}

-- The rate limit that the annotations ask for: both values are there, and positive.
pub record IsLimited (annotations : Labels) (burst average : ℤ) : Type 0 where
  pub burst_found : get_rate_limit_burst annotations ≡ ok burst
  pub average_found : get_rate_limit_average annotations ≡ ok average
  pub burst_positive : is_not_positive burst ≡ false
  pub average_positive : is_not_positive average ≡ false

ok_injective : {A : Type 0} {a b : A} → ◌≡◌ {A = Result AnnotationError A} (ok a) (ok b) → a ≡ b
ok_injective h = cc

unless_not_found-eq-ok :
    {A : Type 0} (r : Result AnnotationError A) (build : A → Built)
    (built : Option (String × Middleware))
    → unless_not_found r build ≡ ok built
    → (built ≡ none) ⊎ ((a : A) × (r ≡ ok a) × (build a ≡ ok built))
unless_not_found-eq-ok (ok a) build built h = inr (a, refl, h)
unless_not_found-eq-ok (err not_found) build built h = inl (ok_injective (sym h))
unless_not_found-eq-ok (err (unsupported_traffic_type t)) build built h = cc
unless_not_found-eq-ok (err (unsupported_scheme t)) build built h = cc
unless_not_found-eq-ok (err (invalid_value t)) build built h = cc
unless_not_found-eq-ok (err not_positive) build built h = cc

-- What each builder gives, where it gives no error.
Retries : Labels → Option (String × Middleware) → Type 0
Retries annotations built =
    (built ≡ none)
    ⊎ ((n : ℤ) × (get_retry_attempts annotations ≡ ok n) × (built ≡ some ("retry", retry n)))

Limits : Labels → Option (String × Middleware) → Type 0
Limits annotations built =
    (built ≡ none)
    ⊎ ((b : ℤ) × (a : ℤ) × IsLimited annotations b a
        × (built ≡ some ("rate-limit", rate_limit b a)))

Breaks : Labels → Option (String × Middleware) → Type 0
Breaks annotations built =
    (built ≡ none)
    ⊎ ((e : String) × (get_circuit_breaker_expression annotations ≡ ok e)
        × (built ≡ some ("circuit-breaker", circuit_breaker e)))

build_retry_middleware-Retries :
    (annotations : Labels) (built : Option (String × Middleware))
    → build_retry_middleware annotations ≡ ok built
    → Retries annotations built
unfolding build_retry_middleware Retries
build_retry_middleware-Retries annotations built h =
    elim (unless_not_found-eq-ok (get_retry_attempts annotations) _ built h) [
      | inl n ↦ inl n
      | inr (n, found, e) ↦ inr (n, found, sym (ok_injective e))
    ]

build_circuit_breaker_middleware-Breaks :
    (annotations : Labels) (built : Option (String × Middleware))
    → build_circuit_breaker_middleware annotations ≡ ok built
    → Breaks annotations built
unfolding build_circuit_breaker_middleware Breaks
build_circuit_breaker_middleware-Breaks annotations built h =
    elim (unless_not_found-eq-ok (get_circuit_breaker_expression annotations) _ built h) [
      | inl n ↦ inl n
      | inr (n, found, e) ↦ inr (n, found, sym (ok_injective e))
    ]

build_rate_limit_middleware-Limits :
    (annotations : Labels) (built : Option (String × Middleware))
    → build_rate_limit_middleware annotations ≡ ok built
    → Limits annotations built
unfolding build_rate_limit_middleware Limits
build_rate_limit_middleware-Limits annotations built h =
    elim (unless_not_found-eq-ok (get_rate_limit_burst annotations) _ built h) [
      | inl n ↦ inl n
      | inr (b, found, e) ↦
          elim (unless_not_found-eq-ok (get_rate_limit_average annotations) _ built e) [
            | inl n ↦ inl n
            | inr (a, found', e') ↦ limited annotations built b a found found' e'
          ]
    ]
  where
    limited :
        (annotations : Labels) (built : Option (String × Middleware)) (b a : ℤ)
        → get_rate_limit_burst annotations ≡ ok b
        → get_rate_limit_average annotations ≡ ok a
        → (if is_not_positive b || is_not_positive a
            then err not_positive
            else ok (some ("rate-limit", rate_limit b a)))
          ≡ ok built
        → Limits annotations built
    limited annotations built b a found found' e = elim (Bool-cases (is_not_positive b)) [
      | inl low ↦ cc (rw low at e)
      | inr high ↦ (elim (Bool-cases (is_not_positive a)) [
        | inl low ↦ cc (rw (high, low) at e)
        | inr high' ↦ inr (
          b,
          a,
          record {
            burst_found = found;
            average_found = found';
            burst_positive = high;
            average_positive = high';
          },
          sym (ok_injective (rw (high, high') at e)),
        )
      ])
    ]

bind-eq-ok :
    {A B : Type 0} (r : Result AnnotationError A) (f : A → Result AnnotationError B) (b : B)
    → (r >>= f) ≡ ok b
    → (a : A) × (r ≡ ok a) × (f a ≡ ok b)
bind-eq-ok (ok a) f b h = (a, refl, h)
bind-eq-ok (err e) f b h = cc

-- The middlewares of a service are those that its annotations ask for: a retry with the annotated number
-- of attempts, a circuit breaker with the annotated expression, and a rate limit with the annotated
-- burst and average, which are positive.
pub record IsAsked (annotations : Labels) (ms : Middlewares) : Type 0 where
  pub retries :
      (m : Middleware)
      → lookup "retry" ms ≡ some m
      → (n : ℤ) × (get_retry_attempts annotations ≡ ok n) × (m ≡ retry n)
  pub limits :
      (m : Middleware)
      → lookup "rate-limit" ms ≡ some m
      → (b : ℤ) × (a : ℤ) × IsLimited annotations b a × (m ≡ rate_limit b a)
  pub breaks :
      (m : Middleware)
      → lookup "circuit-breaker" ms ≡ some m
      → (e : String) × (get_circuit_breaker_expression annotations ≡ ok e) × (m ≡ circuit_breaker e)

lookup-nil : (k : String) (m : Middleware) → lookup {V = Middleware} k [] ≡ some m → ⊥
unfolding lookup
lookup-nil k m e = cc

lookup-with_built :
    (k : String) (ms : Middlewares) (o : Option (String × Middleware)) (m : Middleware)
    → lookup k (with_built ms o) ≡ some m
    → (o ≡ some (k, m)) ⊎ (lookup k ms ≡ some m)
lookup-with_built k ms none m e = inr e
lookup-with_built k ms (some (j, v)) m e =
    let law = lookup-insert j k v ms in
    elim (Bool-cases (j == k)) [
      | inl b ↦ let same = (eq_iff j k).0 b in let value = rw b at law in inl (cc (same, value, e))
      | inr b ↦ inr (sym (rw b at law) ∙ e)
    ]

collected-eq-some :
    (k : String) (r l b : Option (String × Middleware)) (m : Middleware)
    → lookup k (with_built (with_built (with_built [] r) l) b) ≡ some m
    → (b ≡ some (k, m)) ⊎ ((l ≡ some (k, m)) ⊎ (r ≡ some (k, m)))
collected-eq-some k r l b m e = elim (lookup-with_built k _ b m e) [
  | inl x ↦ inl x
  | inr e1 ↦ elim (lookup-with_built k _ l m e1) [
    | inl x ↦ inr (inl x)
    | inr e2 ↦ (elim (lookup-with_built k [] r m e2) [
      | inl x ↦ inr (inr x)
      | inr e3 ↦ absurd (lookup-nil k m e3)
    ])
  ]
]

retry≢limit : ◌≡◌ {A = String} "retry" "rate-limit" → ⊥
retry≢limit h = cc

retry≢breaker : ◌≡◌ {A = String} "retry" "circuit-breaker" → ⊥
retry≢breaker h = cc

limit≢breaker : ◌≡◌ {A = String} "rate-limit" "circuit-breaker" → ⊥
limit≢breaker h = cc

pair_injective :
    {k j : String} {m n : Middleware}
    → ◌≡◌ {A = Option (String × Middleware)} (some (k, m)) (some (j, n))
    → (k ≡ j) × (m ≡ n)
pair_injective h = (cc, cc)

module _ (annotations : Labels) (k : String) (m : Middleware)
    (o : Option (String × Middleware)) where
  Retries-name :
      Retries annotations o
      → o ≡ some (k, m)
      → (k ≡ "retry") × ((n : ℤ) × (get_retry_attempts annotations ≡ ok n) × (m ≡ retry n))
  unfolding Retries
  Retries-name h x = elim h [
    | inl n ↦ cc
    | inr (n, found, y) ↦ let (e, e') = pair_injective (sym x ∙ y) in (e, (n, found, e'))
  ]

  Limits-name :
      Limits annotations o
      → o ≡ some (k, m)
      → (k ≡ "rate-limit") × ((b : ℤ) × (a : ℤ) × IsLimited annotations b a × (m ≡ rate_limit b a))
  unfolding Limits
  Limits-name h x = elim h [
    | inl n ↦ cc
    | inr (b, a, limited, y) ↦ let (e, e') = pair_injective (sym x ∙ y) in (e, (b, a, limited, e'))
  ]

  Breaks-name :
      Breaks annotations o
      → o ≡ some (k, m)
      → (k ≡ "circuit-breaker")
        × ((c : String) × (get_circuit_breaker_expression annotations ≡ ok c)
            × (m ≡ circuit_breaker c))
  unfolding Breaks
  Breaks-name h x = elim h [
    | inl n ↦ cc
    | inr (c, found, y) ↦ let (e, e') = pair_injective (sym x ∙ y) in (e, (c, found, e'))
  ]

collected-IsAsked :
    (annotations : Labels) (r l b : Option (String × Middleware))
    → Retries annotations r
    → Limits annotations l
    → Breaks annotations b
    → IsAsked annotations (with_built (with_built (with_built [] r) l) b)
collected-IsAsked annotations r l b hr hl hb = record {
  retries = λ m e. elim (collected-eq-some "retry" r l b m e) [
    | inl x ↦ absurd (retry≢breaker (Breaks-name annotations "retry" m b hb x).0)
    | inr (inl x) ↦ absurd (retry≢limit (Limits-name annotations "retry" m l hl x).0)
    | inr (inr x) ↦ (Retries-name annotations "retry" m r hr x).1
  ];
  limits = λ m e. elim (collected-eq-some "rate-limit" r l b m e) [
    | inl x ↦ absurd (limit≢breaker (Breaks-name annotations "rate-limit" m b hb x).0)
    | inr (inl x) ↦ (Limits-name annotations "rate-limit" m l hl x).1
    | inr (inr x) ↦ absurd (retry≢limit (sym (Retries-name annotations "rate-limit" m r hr x).0))
  ];
  breaks = λ m e. elim (collected-eq-some "circuit-breaker" r l b m e) [
    | inl x ↦ (Breaks-name annotations "circuit-breaker" m b hb x).1
    | inr (inl x) ↦
        absurd (limit≢breaker (sym (Limits-name annotations "circuit-breaker" m l hl x).0))
    | inr (inr x) ↦
        absurd (retry≢breaker (sym (Retries-name annotations "circuit-breaker" m r hr x).0))
  ];
}

-- Where BuildMiddlewares gives no error, each middleware stands for the annotation that asks for it, with
-- the annotation's value; the burst and the average of a rate limit are both there and positive.
pub build_middlewares-IsAsked :
    (annotations : Labels) (ms : Middlewares)
    → build_middlewares annotations ≡ ok ms
    → IsAsked annotations ms
unfolding build_middlewares run_builders
build_middlewares-IsAsked annotations ms h =
    let (r, hr, h1) = bind-eq-ok (build_retry_middleware annotations) _ ms h in
    let (l, hl, h2) = bind-eq-ok (build_rate_limit_middleware annotations) _ ms h1 in
    let (b, hb, h3) = bind-eq-ok (build_circuit_breaker_middleware annotations) _ ms h2 in
    subst (IsAsked annotations) (ok_injective h3) (
      collected-IsAsked annotations r l b (build_retry_middleware-Retries annotations r hr)
        (build_rate_limit_middleware-Limits annotations l hl)
        (build_circuit_breaker_middleware-Breaks annotations b hb))
