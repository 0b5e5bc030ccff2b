-- ===== src/Api.antt =====
-- pkg/api/api.go and pkg/safe/safe.go: the values that the controller shares, and the handlers that show
-- them. JSON encoding and the HTTP client are parameters of the handlers that use them; a response is
-- taken to reach its reader.
pub mod Nodes
mod Tests
use maesh.Common.{
  ℕ, Bool, true, false, not, String, List, [], ◌∷◌, Option, none, some, if◌then◌else◌,
}
use maesh.Common.Text.{concat}
use maesh.Kube.{Lookup, found, missing, failed}
use maesh.Topology.{Topology, new_topology}
use maesh.Provider.Dynamic.{Configuration, new_default_dynamic_config}

-- Safe; its lock leaves no trace in a sequence of calls.
pub record Safe {ℓ} (A : Type ℓ) : Type ℓ where
  pub value : A

-- Get
unfoldable pub get {ℓ} : {A : Type ℓ} → Safe A → A
get s = s.value

-- Set
unfoldable pub set {ℓ} : {A : Type ℓ} → A → Safe A → Safe A
set value s = record s { value = value }

-- API, without its server, its lister and its logger.
pub record Api : Type 0 where
  pub readiness : Safe Bool
  pub configuration : Safe Configuration
  pub topology : Safe Topology
  pub namespace : String

-- NewAPI; `synced` has what the pod informer's WaitForCacheSync says, and `none` is its error.
unfoldable pub new_api : List Bool → String → Option Api
new_api [] namespace = some (record {
  configuration = record { value = new_default_dynamic_config };
  topology = record { value = new_topology };
  readiness = record { value = false };
  namespace = namespace;
})
new_api (synced ∷ rest) namespace =
    let others = new_api rest namespace in if synced then others else none

-- SetReadiness
unfoldable pub set_readiness : Bool → Api → Api
unfolding set
set_readiness is_ready a = record a { readiness = set is_ready a.readiness }

-- SetConfig
unfoldable pub set_config : Configuration → Api → Api
unfolding set
set_config cfg a = record a { configuration = set cfg a.configuration }

-- SetTopology
unfoldable pub set_topology : Topology → Api → Api
unfolding set
set_topology topo a = record a { topology = set topo a.topology }

-- podInfo
pub record PodInfo : Type 0 where
  pub name : String
  pub ip : String
  pub ready : Bool

-- What the handlers read of a pod; `container_ready` has the `Ready` of each container status.
pub record MeshPod : Type 0 where
  pub name : String
  pub pod_ip : String
  pub container_ready : List Bool

-- A value that a handler encodes.
pub data Payload : Type 0 where
  of_configuration : Configuration → Payload
  of_topology : Topology → Payload
  of_readiness : Bool → Payload
  of_nodes : List PodInfo → Payload

pub record Response : Type 0 where
  pub status : ℕ
  pub body : String

-- What `http.Get` and the read of the body give.
pub data Fetched : Type 0 where
  no_response unreadable : Fetched
  fetched : String → Fetched

-- `http.Error(w, "", code)`
abbrev pub error : ℕ → Response
error code = record { status = code; body = "" }

-- A handler behind `Encode`; `none` is its error.
abbrev pub respond : Option String → Response
respond none = error 500
respond (some body) = record { status = 200; body = body }

-- The loop over the container statuses.
unfoldable pub pod_readiness : List Bool → Bool
pod_readiness [] = true
pod_readiness (ready ∷ statuses) =
    let others = pod_readiness statuses in if not ready then false else others

-- The loop of getMeshNodes.
unfoldable pub pod_infos : List MeshPod → List PodInfo
unfolding pod_readiness
pod_infos [] = []
pod_infos (pod ∷ pods) =
    record { name = pod.name; ip = pod.pod_ip; ready = pod_readiness pod.container_ready }
    ∷ pod_infos pods

-- getMeshNodeConfiguration behind `http.Get`.
unfoldable pub proxied : Fetched → Response
proxied no_response = error 502
proxied unreadable = error 502
proxied (fetched raw) = record { status = 200; body = raw }

-- getMeshNodeConfiguration, given what the lister says of the named pod.
unfoldable pub get_mesh_node_configuration : (String → Fetched) → Lookup MeshPod → Response
unfolding proxied
get_mesh_node_configuration fetch missing = error 404
get_mesh_node_configuration fetch failed = error 500
get_mesh_node_configuration fetch (found pod) =
    proxied (fetch (concat ("http://" ∷ pod.pod_ip ∷ ":8080/api/rawdata" ∷ [])))

module _ (encode : Payload → Option String) where
  -- getCurrentConfiguration
  unfoldable pub get_current_configuration : Api → Response
  unfolding get
  get_current_configuration a = respond (encode (of_configuration (get a.configuration)))

  -- getCurrentTopology
  unfoldable pub get_current_topology : Api → Response
  unfolding get
  get_current_topology a = respond (encode (of_topology (get a.topology)))

  -- getReadiness
  unfoldable pub get_readiness : Api → Response
  unfolding get
  get_readiness a =
      if not (get a.readiness) then error 500 else respond (encode (of_readiness (get a.readiness)))

  -- getMeshNodes, given the lister's answer.
  unfoldable pub get_mesh_nodes : Option (List MeshPod) → Response
  unfolding pod_infos
  get_mesh_nodes none = error 500
  get_mesh_nodes (some pods) = respond (encode (of_nodes (pod_infos pods)))
