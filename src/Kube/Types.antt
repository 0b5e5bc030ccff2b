-- ===== src/Kube/Types.antt =====
-- The types of the Kubernetes API, as far as the program reads and writes their fields. They are
-- declared outside the repository (k8s.io/api); only fields that the sources name are kept.
use maesh.Common.{ℕ, String, List, Option, Bool, true, false, ◌==◌, ◌&&◌, nat_eq, string_eq}

-- intstr.IntOrString
pub data IntOrStringType : Type 0 where
  int_type string_type : IntOrStringType

pub record IntOrString : Type 0 where
  pub type : IntOrStringType
  pub int_val : ℕ
  pub str_val : String

-- corev1.ServicePort; ports are int32 bit patterns.
pub record ServicePort : Type 0 where
  pub name : String
  pub protocol : String
  pub port : ℕ
  pub target_port : IntOrString

abbrev pub protocol_tcp : String
protocol_tcp = "TCP"

abbrev pub protocol_udp : String
protocol_udp = "UDP"

-- `intstr.FromInt`
abbrev pub from_int : ℕ → IntOrString
from_int n = record { type = int_type; int_val = n; str_val = "" }

abbrev pub type_beq : IntOrStringType → IntOrStringType → Bool
type_beq int_type int_type = true
type_beq string_type string_type = true
type_beq _ _ = false

-- Go's `==` on the struct.
abbrev pub target_beq : IntOrString → IntOrString → Bool
target_beq a b = type_beq a.type b.type && a.int_val == b.int_val && a.str_val == b.str_val

-- corev1.Service
pub record Service : Type 0 where
  pub name : String
  pub namespace : String
  pub labels : List (String × String)
  pub annotations : List (String × String)
  pub type : String
  pub selector : List (String × String)
  pub ports : List ServicePort
  pub cluster_ip : String
  pub topology_keys : List String

-- What a lister's `Get` gives: `missing` is an error that IsNotFound recognises, `failed` any other.
pub data Lookup (A : Type 0) : Type 0 where
  found : A → Lookup A
  missing : Lookup A
  failed : Lookup A

-- corev1.ContainerPort
pub record ContainerPort : Type 0 where
  pub name : String
  pub protocol : String
  pub container_port : ℕ

-- corev1.Pod; `containers` holds the ports of each container, and owner references are opaque.
pub record Pod : Type 0 where
  pub name : String
  pub namespace : String
  pub labels : List (String × String)
  pub service_account : String
  pub owner_references : List String
  pub containers : List (List ContainerPort)
  pub pod_ip : String

-- corev1.ObjectReference: a name and a namespace.
pub record ObjectReference : Type 0 where
  pub name : String
  pub namespace : String

-- corev1.Endpoints; `subsets` holds the target references of the addresses of each subset.
pub record Endpoints : Type 0 where
  pub name : String
  pub namespace : String
  pub labels : List (String × String)
  pub subsets : List (List (Option ObjectReference))

abbrev pub service_type_external_name : String
service_type_external_name = "ExternalName"
