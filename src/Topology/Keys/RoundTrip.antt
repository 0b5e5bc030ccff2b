-- ===== src/Topology/Keys/RoundTrip.antt =====
-- pkg/topology/topology.go: UnmarshalText reads back what MarshalText writes.
use Prim.Native.String.{String, [], ◌∷◌}
use Prim.Native.Char.{Char}
use maesh.Common.{◌≡◌, some, none, ok, refl}
use maesh.Common.Text.{cut, strip_prefix}
use maesh.Common.Text.Laws.{◌⧺◌, cut-append, cut-append_none}
use text.Mathlib.TextLemmas.{append-nil}
use maesh.Topology.Types.{Key, ServiceTrafficTargetKey}
use maesh.Topology.Keys.{
  marshal_key, unmarshal_key, marshal_target_key, unmarshal_target_key, split_two,
}

split_two_lem :
    (c : Char) (a b : String)
    → cut (c ∷ []) a ≡ none
    → cut (c ∷ []) b ≡ none
    → split_two (a ⧺ ((c ∷ []) ⧺ b)) (c ∷ []) ≡ some (a, b)
unfolding split_two
split_two_lem c a b ha hb = rw (split_two, cut-append c a b ha, hb)

-- Neither part of the key holds the separator.
abbrev pub IsFreeOf : String → Key → Type 0
IsFreeOf sep k = (cut sep k.name ≡ none) × (cut sep k.namespace ≡ none)

-- A key whose name and namespace hold no `@` is read back from its text.
pub unmarshal_key-marshal_key : (k : Key) → IsFreeOf "@" k → unmarshal_key (marshal_key k) ≡ ok k
unfolding unmarshal_key marshal_key
unmarshal_key-marshal_key k (hn, hs) =
    rw (append-nil k.namespace, unmarshal_key, split_two_lem "@" k.name k.namespace hn hs)

colon-at : cut ":" "@" ≡ none
unfolding cut strip_prefix
colon-at = refl

marshal_key-no_colon : (k : Key) → IsFreeOf ":" k → cut ":" (marshal_key k) ≡ none
unfolding marshal_key
marshal_key-no_colon k (hn, hs) = rw append-nil (
    cut-append_none ":" k.name ("@" ⧺ k.namespace) hn
      (cut-append_none ":" "@" k.namespace colon-at hs))

-- The key of a service's traffic target, a pair of keys that hold neither `@` nor `:`, is read back
-- from its text.
pub unmarshal_target_key-marshal_target_key :
    (k : ServiceTrafficTargetKey)
    → IsFreeOf "@" k.service
    → IsFreeOf "@" k.traffic_target
    → IsFreeOf ":" k.service
    → IsFreeOf ":" k.traffic_target
    → unmarshal_target_key (marshal_target_key k) ≡ ok k
unfolding unmarshal_target_key marshal_target_key
unmarshal_target_key-marshal_target_key k hs ht cs ct = rw (
  append-nil (marshal_key k.traffic_target),
  unmarshal_target_key,
  split_two_lem ":" (marshal_key k.service) (marshal_key k.traffic_target)
      (marshal_key-no_colon k.service cs) (marshal_key-no_colon k.traffic_target ct),
  unmarshal_key-marshal_key k.service hs,
  unmarshal_key-marshal_key k.traffic_target ht,
)
