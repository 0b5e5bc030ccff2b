-- ===== src/Controller/Shadow/Names.antt =====
-- The names of the shadow services, and the state that LoadState reads back from them.
use maesh.Common.{String, ◌≡◌, some, none, false, arith, ◌∷◌, []}
use text.Mathlib.TextLemmas.{append-nil, append_assoc}
use maesh.Common.Text.{concat, strip_prefix, cut, cut_last, has_infix}
use maesh.Common.Text.Laws.{◌⧺◌, strip_prefix-append, cut_last_lem}
use maesh.Controller.PortMapping.Load.{separator, match_here, parse_service_namespace_and_name}
use Prim.Native.String.{[]}
use maesh.Controller.Shadow.{get_shadow_service_name}

cut-none : (s sep : String) → has_infix s sep ≡ false → cut sep s ≡ none
unfolding has_infix
cut-none s sep h = ground arith

match_here-name :
    (mesh namespace name : String)
    → has_infix (concat ("6d61657368-" ∷ namespace ∷ [])) separator ≡ false
    → match_here mesh (get_shadow_service_name mesh namespace name) ≡ some (namespace, name)
unfolding match_here get_shadow_service_name
match_here-name mesh namespace name h = rw (append-nil namespace, stripped, match_here, parts)
  where
    stripped :
        strip_prefix (mesh ⧺ "-") (mesh ⧺ ("-" ⧺ (name ⧺ (separator ⧺ namespace))))
        ≡ some (name ⧺ (separator ⧺ namespace))
    stripped =
        rw (← append_assoc mesh "-" (name ⧺ (separator ⧺ namespace)))
          (strip_prefix-append (mesh ⧺ "-") (name ⧺ (separator ⧺ namespace)))

    parts : cut_last separator (name ⧺ (separator ⧺ namespace)) ≡ some (name, namespace)
    parts =
        cut_last_lem "-" "6d61657368-" name namespace
          (rw (append-nil namespace) at (cut-none _ separator h))

parse_of_match :
    (mesh s : String) {parts : String × String}
    → match_here mesh s ≡ some parts
    → parse_service_namespace_and_name mesh s ≡ some parts
unfolding parse_service_namespace_and_name
parse_of_match mesh String.[] h = h
parse_of_match mesh (String.◌∷◌ c s) h = ground arith

-- The name of a shadow service parses back to the namespace and the name of its service, where the
-- namespace neither begins with `6d61657368-` nor holds `-6d61657368-`, whatever the name holds.
pub parse-get_shadow_service_name :
    (mesh namespace name : String)
    → has_infix (concat ("6d61657368-" ∷ namespace ∷ [])) separator ≡ false
    → parse_service_namespace_and_name mesh (get_shadow_service_name mesh namespace name)
      ≡ some (namespace, name)
parse-get_shadow_service_name mesh namespace name h =
    parse_of_match mesh _ (match_here-name mesh namespace name h)
