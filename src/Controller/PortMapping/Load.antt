-- ===== src/Controller/PortMapping/Load.antt =====
-- LoadState and parseServiceNamespaceAndName, pkg/controller/portmapping.go. The mesh namespace stands
-- for itself in the regular expression, and names hold no line break: both are DNS labels.
use maesh.Common.{
  String, List, [], ◌∷◌, Option, none, some, ◌&&◌, if◌then◌else◌, insert, nat_eq, Bool,
}
use maesh.Common.Text.{concat, strip_prefix, cut_last}
use maesh.Common.Int32.{le32}
use maesh.Kube.{Service, ServicePort}
use maesh.Controller.PortMapping.{PortMapping, MappedPort, Table}

abbrev pub separator : String
separator = "-6d61657368-"

abbrev swap : Option (String × String) → Option (String × String)
swap none = none
swap (some (name, namespace)) = some (namespace, name)

-- The groups of the expression `<mesh>-(.*)-6d61657368-(.*)` in a match at the start of the text; the
-- first group is greedy, so it ends at the last separator.
unfoldable pub match_here : String → String → Option (String × String)
match_here mesh s = elim (strip_prefix (concat (mesh ∷ "-" ∷ [])) s) [
  | none ↦ none
  | some rest ↦ swap (cut_last separator rest)
]

-- parseServiceNamespaceAndName: the leftmost match; the result is the namespace and the name.
unfoldable pub parse_service_namespace_and_name : String → String → Option (String × String)
parse_service_namespace_and_name mesh String.[] = match_here mesh String.[]
parse_service_namespace_and_name mesh (String.◌∷◌ c s) =
    let later = parse_service_namespace_and_name mesh s in
    elim (match_here mesh (String.◌∷◌ c s)) [ some parts ↦ some parts | none ↦ later ]

abbrev pub entry : String → String → ServicePort → MappedPort
entry namespace name sp = record { namespace = namespace; name = name; port = sp.port }

abbrev pub in_range : PortMapping → ServicePort → Bool
in_range p sp = le32 p.min_port sp.target_port.int_val && le32 sp.target_port.int_val p.max_port

-- The inner loop of LoadState.
unfoldable pub load_ports : PortMapping → String → String → List ServicePort → Table → Table
load_ports p namespace name [] table = table
load_ports p namespace name (sp ∷ sps) table =
    load_ports p namespace name sps (
      if in_range p sp
      then insert sp.target_port.int_val (entry namespace name sp) table
      else table)

-- One round of the outer loop: a name that does not parse is skipped.
unfoldable pub load_service : PortMapping → Service → Table → Table
load_service p svc table = elim (parse_service_namespace_and_name p.namespace svc.name) [
  | none ↦ table
  | some (namespace, name) ↦ load_ports p namespace name svc.ports table
]

unfoldable pub load_services : PortMapping → List Service → Table → Table
load_services p [] table = table
load_services p (svc ∷ svcs) table = load_services p svcs (load_service p svc table)

-- LoadState, given what the lister answers; `none` is its error.
unfoldable pub load_state : PortMapping → Option (List Service) → Option PortMapping
unfolding load_services
load_state p none = none
load_state p (some svcs) = some (record p { table = load_services p svcs p.table })
