-- ===== src/Dns.antt =====
-- pkg/dns/dns.go: the cluster's DNS. This file has the types of the Kubernetes API that the package
-- touches, and the text of the patch; Dns/Client has the calls.
pub mod Text
pub mod Exec
pub mod Client
mod Tests
use maesh.Common.{
  Bool, true, false, not, String, List, [], ◌∷◌, Option, none, some, ◌==◌, string_eq, if◌then◌else◌,
}
use maesh.Common.Text.{concat, join, cut, strip_prefix, has_infix, replace_dots}

-- Provider
pub data Provider : Type 0 where
  unknown_dns core_dns kube_dns : Provider

abbrev pub traefik_mesh_block_header : String
traefik_mesh_block_header = "#### Begin Traefik Mesh Block"

abbrev pub traefik_mesh_block_trailer : String
traefik_mesh_block_trailer = "#### End Traefik Mesh Block"

-- A slice expression whose bounds are in the wrong order panics.
pub data Sliced : Type 0 where
  panicked : Sliced
  sliced : String → Sliced

-- `config[start : end]`: `before` is the text in front of `start`, `upto` the text in front of `end`.
unfoldable pub slice : String → String → Sliced
slice before upto = elim (strip_prefix before upto) [ none ↦ panicked | some text ↦ sliced text ]

-- getStubDomain
unfoldable pub get_stub_domain : String → String → String → Sliced
unfolding slice
get_stub_domain config block_header block_trailer = elim (cut block_header config) [
  | none ↦ sliced ""
  | some (before, _) ↦ elim (cut block_trailer config) [
    | none ↦ sliced ""
    | some (upto, _) ↦ slice before (concat (upto ∷ block_trailer ∷ []))
  ]
]

-- `SplitN(config, sep, 2)`: the first part, and the second part or the empty text.
unfoldable pub first_part : String → String → String
first_part sep config = elim (cut sep config) [ none ↦ config | some (before, _) ↦ before ]

unfoldable pub second_part : String → String → String
second_part sep config = elim (cut sep config) [ none ↦ "" | some (_, after) ↦ after ]

-- removeStubDomain
unfoldable pub remove_stub_domain : String → String → String → String
unfolding first_part second_part
remove_stub_domain config block_header block_trailer =
    if not (has_infix config block_header)
    then config
    else concat (
        first_part (concat (block_header ∷ "\n" ∷ [])) config
        ∷ second_part (concat (block_trailer ∷ "\n" ∷ [])) config
        ∷ [])

-- The lines of `stubDomainFormat` between the header and the trailer, each without its line break.
abbrev pub stub_domain_lines : String → String → String → List String
stub_domain_lines cluster_domain mesh upstream =
    "traefik.mesh:53 {"
    ∷ "    errors"
    ∷ "    rewrite continue {"
    ∷ concat (
        "        name regex ([a-zA-Z0-9-_]*)\\.([a-zv0-9-_]*)\\.traefik\\.mesh " ∷ mesh
        ∷ "-{1}-6d61657368-{2}." ∷ mesh ∷ ".svc." ∷ cluster_domain ∷ [])
    ∷ concat (
        "        answer name "
        ∷ mesh
        ∷ "-([a-zA-Z0-9-_]*)-6d61657368-([a-zA-Z0-9-_]*)\\."
        ∷ mesh
        ∷ "\\.svc\\."
        ∷ replace_dots "\\." cluster_domain
        ∷ " {1}.{2}.traefik.mesh"
        ∷ [])
    ∷ "    }"
    ∷ concat ("    kubernetes " ∷ cluster_domain ∷ " in-addr.arpa ip6.arpa {" ∷ [])
    ∷ "        pods insecure"
    ∷ concat ("        " ∷ upstream ∷ [])
    ∷ "        fallthrough in-addr.arpa ip6.arpa"
    ∷ "    }"
    ∷ "    forward . /etc/resolv.conf"
    ∷ "    cache 30"
    ∷ "    loop"
    ∷ "    reload"
    ∷ "    loadbalance"
    ∷ "}"
    ∷ []

-- The same as one text; `old` says that the version of CoreDNS is below 1.7.
unfoldable pub stub_domain_body : String → String → Bool → String
stub_domain_body cluster_domain mesh old =
    join (stub_domain_lines cluster_domain mesh (if old then "upstream" else "")) "\n"

-- What `Sprintf` makes of `stubDomainFormat`.
unfoldable pub stub_domain : String → String → String → String → Bool → String
stub_domain block_header block_trailer cluster_domain mesh old =
    concat
      (block_header ∷ "\n" ∷ stub_domain_body cluster_domain mesh old ∷ "\n" ∷ block_trailer ∷ [])

abbrev pub joined_config : String → String → String
joined_config config stub = concat (config ∷ "\n" ∷ stub ∷ "\n" ∷ [])

-- addStubDomain behind getStubDomain; `none` is the panic.
unfoldable pub replace_stub_domain :
    String → String → String → String → Sliced → Option (String × Bool)
unfolding remove_stub_domain
replace_stub_domain config block_header block_trailer stub panicked = none
replace_stub_domain config block_header block_trailer stub (sliced existing) = some (
  joined_config
      (if not (existing == "")
        then remove_stub_domain config block_header block_trailer
        else config)
      stub,
  not (existing == stub),
)

-- addStubDomain
unfoldable pub add_stub_domain :
    String → String → String → String → String → Bool → Option (String × Bool)
unfolding replace_stub_domain get_stub_domain stub_domain
add_stub_domain config block_header block_trailer cluster_domain mesh old =
    replace_stub_domain config block_header block_trailer
      (stub_domain block_header block_trailer cluster_domain mesh old)
      (get_stub_domain config block_header block_trailer)
