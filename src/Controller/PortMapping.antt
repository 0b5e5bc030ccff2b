-- ===== src/Controller/PortMapping.antt =====
-- pkg/controller/portmapping.go: the table from mesh ports to service ports. Calls come from the one
-- worker of the controller, so the lock leaves no trace in the model.
pub mod Add
pub mod Find
pub mod Load
pub mod Valid
pub mod Restore
use maesh.Common.{
  ℕ, zero, suc, ◌+◌, ◌-◌, String, List, [], ◌∷◌, Option, none, some, ◌==◌, ◌&&◌, if◌then◌else◌,
  lookup, insert, erase, Bool, nat_eq, string_eq,
}
use maesh.Common.Int32.{add32, order32, le32}

-- servicePort
pub record MappedPort : Type 0 where
  pub namespace : String
  pub name : String
  pub port : ℕ

abbrev pub Table : Type 0
Table = List (ℕ × MappedPort)

pub record PortMapping : Type 0 where
  pub namespace : String
  pub min_port : ℕ
  pub max_port : ℕ
  pub table : Table

-- NewPortMapping
unfoldable pub new : String → ℕ → ℕ → PortMapping
new namespace min_port max_port = record {
  namespace = namespace;
  min_port = min_port;
  max_port = max_port;
  table = [];
}

-- `no_port` is the error of `Add`; `out_of_fuel` stands for a loop that does not end.
pub data Allocation : Type 0 where
  allocated : ℕ → PortMapping → Allocation
  no_port : Allocation
  out_of_fuel : Allocation

-- The test in the loop of `Find`.
abbrev pub is_for : String → String → ℕ → MappedPort → Bool
is_for namespace name port v = v.name == name && v.namespace == namespace && v.port == port

-- The loop of `Find`, in the order of the table.
unfoldable pub find_in : String → String → ℕ → Table → Option ℕ
find_in namespace name port [] = none
find_in namespace name port ((mapped, v) ∷ table) =
    if is_for namespace name port v then some mapped else find_in namespace name port table

-- Find
unfoldable pub find : PortMapping → String → String → ℕ → Option ℕ
unfolding find_in
find p namespace name port = find_in namespace name port p.table

-- The loop of `Add` from port `i`.
unfoldable pub add_from : ℕ → ℕ → PortMapping → MappedPort → Allocation
add_from zero i p v = out_of_fuel
add_from (suc fuel) i p v =
    let next = add_from fuel (add32 i 1) p v in
    if le32 i p.max_port
    then (elim (lookup i p.table) [
      | some _ ↦ next
      | none ↦ allocated i (record p { table = insert i v p.table })
    ])
    else no_port

-- One round for each port of the range, and one for the test that ends the loop.
abbrev pub rounds : PortMapping → ℕ
rounds p = order32 p.max_port - order32 p.min_port + 2

-- Add
unfoldable pub add : PortMapping → String → String → ℕ → Allocation
unfolding add_from
add p namespace name port =
    add_from (rounds p) p.min_port p (record { namespace = namespace; name = name; port = port })

-- Remove: `none` is the error "unable to find port mapping".
unfoldable pub remove : PortMapping → String → String → ℕ → Option (ℕ × PortMapping)
unfolding find
remove p namespace name port = elim (find p namespace name port) [
  | none ↦ none
  | some mapped ↦ some (mapped, record p { table = erase mapped p.table })
]
