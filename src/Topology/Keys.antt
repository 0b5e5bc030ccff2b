-- ===== src/Topology/Keys.antt =====
-- pkg/topology/topology.go: the text forms of the keys, which are the keys of the JSON maps.
pub mod RoundTrip
use Prim.Native.String
use maesh.Common.{String, [], ◌∷◌, Option, none, some, Result, ok, err, ◌>>=◌}
use maesh.Common.Text.{concat, cut}
use maesh.Topology.Types.{Key, ServiceTrafficTargetKey}

-- `strings.Split(s, sep)` where the caller wants two parts: `none` if there are more or fewer.
unfoldable pub split_two : String → String → Option (String × String)
split_two s sep = elim (cut sep s) [
  | none ↦ none
  | some (a, b) ↦ (elim (cut sep b) [ none ↦ some (a, b) | some _ ↦ none ])
]

pub data KeyError : Type 0 where
  bad_key bad_target_key bad_service bad_traffic_target : KeyError

-- Key.String and Key.MarshalText
unfoldable pub marshal_key : Key → String
marshal_key k = concat (k.name ∷ "@" ∷ k.namespace ∷ [])

-- Key.UnmarshalText
unfoldable pub unmarshal_key : String → Result KeyError Key
unmarshal_key data' = elim (split_two data' "@") [
  | none ↦ err bad_key
  | some (name, namespace) ↦ ok (record { name = name; namespace = namespace })
]

abbrev renamed : {A : Type 0} → KeyError → Result KeyError A → Result KeyError A
renamed e (ok a) = ok a
renamed e (err _) = err e

-- ServiceTrafficTargetKey.String and its MarshalText
unfoldable pub marshal_target_key : ServiceTrafficTargetKey → String
marshal_target_key k = concat (marshal_key k.service ∷ ":" ∷ marshal_key k.traffic_target ∷ [])

-- ServiceTrafficTargetKey.UnmarshalText
unfoldable pub unmarshal_target_key : String → Result KeyError ServiceTrafficTargetKey
unmarshal_target_key data' = elim (split_two data' ":") [
  | none ↦ err bad_target_key
  | some (service, target) ↦ renamed bad_service (unmarshal_key service) >>= λ s.
      renamed bad_traffic_target (unmarshal_key target) >>= λ t.
      ok (record { service = s; traffic_target = t })
]
