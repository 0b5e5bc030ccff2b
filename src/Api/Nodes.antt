-- ===== src/Api/Nodes.antt =====
-- The nodes that the API lists, and the statuses with which it answers.
use maesh.Common.{
  Bool, true, String, List, [], ◌∷◌, ◌≡◌, ◌↔◌, ◌⊎◌, inl, inr, refl, ap, arith, All, Option, none,
  some, ◌++◌, Bool-cases, if◌then◌else◌,
}
use maesh.Common.Text.{concat}
use maesh.Kube.{Lookup, found, missing, failed}
use maesh.Provider.Dynamic.{Configuration}
use maesh.Topology.{Topology}
use maesh.Api.{
  Api, PodInfo, MeshPod, Payload, of_configuration, of_topology, of_readiness, of_nodes, Fetched,
  no_response, unreadable, fetched, respond, error, pod_readiness, pod_infos, get_readiness,
  get_current_configuration, get_current_topology, get_mesh_nodes, get_mesh_node_configuration,
  proxied, set_readiness, set_config, set_topology, get, set,
}

-- What the API says of a pod.
pub record Describes (pod : MeshPod) (info : PodInfo) : Type 0 where
  pub name_eq : info.name ≡ pod.name
  pub ip_eq : info.ip ≡ pod.pod_ip
  pub ready_iff : (info.ready ≡ true) ↔ All (λ ready. ready ≡ true) pod.container_ready

abbrev pub DescribesAll : List MeshPod → List PodInfo → Type 0
DescribesAll [] [] = Unit
DescribesAll [] (_ ∷ _) = ⊥
DescribesAll (_ ∷ _) [] = ⊥
DescribesAll (pod ∷ pods) (info ∷ infos) = Describes pod info × DescribesAll pods infos

pod_readiness_iff :
    (statuses : List Bool) → (pod_readiness statuses ≡ true) ↔ All (λ ready. ready ≡ true) statuses
unfolding pod_readiness
pod_readiness_iff [] = ground arith
pod_readiness_iff (ready ∷ statuses) = ground (arith, pod_readiness_iff statuses)

pod_infos-Describes : (pods : List MeshPod) → DescribesAll pods (pod_infos pods)
unfolding pod_infos
pod_infos-Describes [] = tt
pod_infos-Describes (pod ∷ pods) = (
  record { name_eq = refl; ip_eq = refl; ready_iff = pod_readiness_iff pod.container_ready },
  pod_infos-Describes pods,
)

-- What the node list answers: an error of the lister, or of the encoding, is a 500, and otherwise the
-- body encodes one entry for each pod in the lister's order, with the pod's name and address, which is
-- ready exactly when all of its containers are.
pub get_mesh_nodes-Describes :
    (encode : Payload → Option String) (pods : List MeshPod)
    → (get_mesh_nodes encode none ≡ error 500)
      × ((infos : List PodInfo) × DescribesAll pods infos
          × (get_mesh_nodes encode (some pods) ≡ respond (encode (of_nodes infos))))
unfolding get_mesh_nodes
get_mesh_nodes-Describes encode pods = (refl, (pod_infos pods, pod_infos-Describes pods, refl))

-- A call that sets one of the shared values.
pub data Setting : Type 0 where
  ready_set : Bool → Setting
  config_set : Configuration → Setting
  topology_set : Topology → Setting

abbrev applied : Setting → Api → Api
applied (ready_set b) a = set_readiness b a
applied (config_set cfg) a = set_config cfg a
applied (topology_set topo) a = set_topology topo a

-- The API after such calls, the first one first.
pub after_settings : List Setting → Api → Api
after_settings [] a = a
after_settings (x ∷ xs) a = after_settings xs (applied x a)

abbrev pub as_ready : Setting → Option Bool
as_ready (ready_set b) = some b
as_ready (config_set cfg) = none
as_ready (topology_set topo) = none

abbrev pub as_config : Setting → Option Configuration
as_config (ready_set b) = none
as_config (config_set cfg) = some cfg
as_config (topology_set topo) = none

abbrev pub as_topology : Setting → Option Topology
as_topology (ready_set b) = none
as_topology (config_set cfg) = none
as_topology (topology_set topo) = some topo

-- `v` was set last: by a call behind which there is none of its kind, or it was there before and there
-- is no call of its kind at all.
abbrev pub LastSet : {V : Type 0} → (Setting → Option V) → V → List Setting → V → Type 0
LastSet of old xs v =
    (All (λ x. of x ≡ none) xs × (v ≡ old))
    ⊎ ((before : List Setting) × (x : Setting) × (after : List Setting) × (xs ≡ before ++ x ∷ after)
        × (of x ≡ some v)
        × All (λ y. of y ≡ none) after)

-- A call of another kind changes nothing of what was set last; one of this kind is the last one, if
-- none follows.
module _ {V : Type 0} (of : Setting → Option V) (x : Setting) (xs : List Setting) (old v : V) where
  LastSet-other : of x ≡ none → LastSet of old xs v → LastSet of old (x ∷ xs) v
  LastSet-other e (inl (rest, same)) = inl ((e, rest), same)
  LastSet-other e (inr (before, y, after, split, is_y, rest)) =
      inr (x ∷ before, y, after, ap (λ (l : List Setting). x ∷ l) split, is_y, rest)

  LastSet-this : {u : V} → of x ≡ some u → LastSet of u xs v → LastSet of old (x ∷ xs) v
  LastSet-this e (inl (rest, same)) = inr ([], x, xs, refl, rw same e, rest)
  LastSet-this e (inr (before, y, after, split, is_y, rest)) =
      inr (x ∷ before, y, after, ap (λ (l : List Setting). x ∷ l) split, is_y, rest)

-- What the three values are after a sequence of calls.
abbrev AllLast : List Setting → Api → Api → Type 0
AllLast xs a b =
    LastSet as_ready (get a.readiness) xs (get b.readiness)
    × LastSet as_config (get a.configuration) xs (get b.configuration)
    × LastSet as_topology (get a.topology) xs (get b.topology)

after_settings-AllLast : (xs : List Setting) (a : Api) → AllLast xs a (after_settings xs a)
unfolding after_settings set_readiness set_config set_topology get set
after_settings-AllLast [] a = (inl (tt, refl), inl (tt, refl), inl (tt, refl))
after_settings-AllLast (ready_set b ∷ xs) a =
    let (r, c, t) = after_settings-AllLast xs (set_readiness b a) in
    (
      LastSet-this as_ready (ready_set b) xs _ _ refl r,
      LastSet-other as_config (ready_set b) xs _ _ refl c,
      LastSet-other as_topology (ready_set b) xs _ _ refl t,
    )
after_settings-AllLast (config_set cfg ∷ xs) a =
    let (r, c, t) = after_settings-AllLast xs (set_config cfg a) in
    (
      LastSet-other as_ready (config_set cfg) xs _ _ refl r,
      LastSet-this as_config (config_set cfg) xs _ _ refl c,
      LastSet-other as_topology (config_set cfg) xs _ _ refl t,
    )
after_settings-AllLast (topology_set topo ∷ xs) a =
    let (r, c, t) = after_settings-AllLast xs (set_topology topo a) in
    (
      LastSet-other as_ready (topology_set topo) xs _ _ refl r,
      LastSet-other as_config (topology_set topo) xs _ _ refl c,
      LastSet-this as_topology (topology_set topo) xs _ _ refl t,
    )

-- After any sequence of the calls that set readiness, configuration and topology, the handlers answer
-- by the values that were set last, or by the first ones where a value was never set: the readiness is
-- a 500 if it is false and the encoded `true` if it is true, and the configuration and the topology are
-- the encoded values.
pub get_readiness-after_settings :
    (encode : Payload → Option String) (xs : List Setting) (a : Api)
    → (ready : Bool) × (cfg : Configuration) × (topo : Topology) × LastSet as_ready
        (get a.readiness)
        xs
        ready
      × LastSet as_config (get a.configuration) xs cfg
      × LastSet as_topology (get a.topology) xs topo
      × (get_readiness encode (after_settings xs a)
          ≡ (if ready then respond (encode (of_readiness true)) else error 500))
      × (get_current_configuration encode (after_settings xs a)
          ≡ respond (encode (of_configuration cfg)))
      × (get_current_topology encode (after_settings xs a) ≡ respond (encode (of_topology topo)))
unfolding get_readiness get_current_configuration get_current_topology
get_readiness-after_settings encode xs a =
    let b = after_settings xs a in
    let (r, c, t) = after_settings-AllLast xs a in
    (
      get b.readiness,
      get b.configuration,
      get b.topology,
      r,
      c,
      t,
      (elim (Bool-cases (get b.readiness)) [ inl e ↦ rw e refl | inr e ↦ rw e refl ]),
      refl,
      refl,
    )

-- What http.Get and the read of the body gave was a body.
abbrev pub Body : Fetched → String → Type 0
Body no_response text = ⊥
Body unreadable text = ⊥
Body (fetched raw) text = raw ≡ text

-- The body that the pod gives at its own address.
abbrev pub NodeBody : (String → Fetched) → Lookup MeshPod → String → Type 0
NodeBody fetch missing text = ⊥
NodeBody fetch failed text = ⊥
NodeBody fetch (found pod) text =
    Body (fetch (concat ("http://" ∷ pod.pod_ip ∷ ":8080/api/rawdata" ∷ []))) text

proxied_iff :
    (f : Fetched) (text : String) → (proxied f ≡ record { status = 200; body = text }) ↔ Body f text
unfolding proxied
proxied_iff no_response text = ground arith
proxied_iff unreadable text = ground arith
proxied_iff (fetched raw) text = ground arith

proxied_status : (f : Fetched) → ((proxied f).status ≡ 404) ⊎ ((proxied f).status ≡ 500) → ⊥
unfolding proxied
proxied_status no_response h = ground arith
proxied_status unreadable h = ground arith
proxied_status (fetched raw) h = ground arith

-- The configuration of a node is answered with 200 and a text exactly when the lister finds the pod and
-- the pod gives that text at its address; with 404 exactly when the lister says that there is no such
-- pod; and with 500 exactly when the lister fails.
pub get_mesh_node_configuration_iff :
    (fetch : String → Fetched) (answer : Lookup MeshPod) (text : String)
    → ((get_mesh_node_configuration fetch answer ≡ record { status = 200; body = text })
        ↔ NodeBody fetch answer text)
      × (((get_mesh_node_configuration fetch answer).status ≡ 404) ↔ (answer ≡ missing))
      × (((get_mesh_node_configuration fetch answer).status ≡ 500) ↔ (answer ≡ failed))
unfolding get_mesh_node_configuration
get_mesh_node_configuration_iff fetch missing text = ground arith
get_mesh_node_configuration_iff fetch failed text = ground arith
get_mesh_node_configuration_iff fetch (found pod) text =
    let f = fetch (concat ("http://" ∷ pod.pod_ip ∷ ":8080/api/rawdata" ∷ [])) in
    (
      proxied_iff f text,
      ((λ e. absurd (proxied_status f (inl e))), λ e. cc e),
      ((λ e. absurd (proxied_status f (inr e))), λ e. cc e),
    )
