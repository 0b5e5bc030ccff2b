-- ===== src/Kube/Versions.antt =====
-- pkg/k8s/smi.go: which versions of the SMI resources the server prefers. The groups that the program was
-- built against stand in smi-sdk-go and are a parameter.
use maesh.Common.{
  Bool, true, false, String, List, [], ◌∷◌, ◌++◌, ◌≡◌, ◌≢◌, ◌↔◌, ◌⊎◌, refl, arith, Option, none,
  some, ◌==◌, string_eq, eq_iff, if◌then◌else◌, All,
}

-- schema.GroupVersion
pub record GroupVersion : Type 0 where
  pub group : String
  pub version : String

-- metav1.APIGroup, with its preferred version.
pub record ApiGroup : Type 0 where
  pub name : String
  pub preferred : String

-- The `SchemeGroupVersion` of the three packages.
pub record SchemeGroups : Type 0 where
  pub split : GroupVersion
  pub specs : GroupVersion
  pub access : GroupVersion

-- A message: the group, the version that it should have, and the version that it has, if any.
pub data VersionError : Type 0 where
  no_group : GroupVersion → VersionError
  other_version : GroupVersion → String → VersionError

-- The inner loop of CheckSMIVersion; the empty text is the version of a group that is not there.
unfoldable pub preferred_version : GroupVersion → List ApiGroup → String
preferred_version required [] = ""
preferred_version required (g ∷ groups) =
    let rest = preferred_version required groups in
    if required.group == g.name then g.preferred else rest

-- The body of the outer loop.
unfoldable pub version_errors : GroupVersion → String → List VersionError
version_errors required version =
    if version == ""
    then no_group required ∷ []
    else if version == required.version
    then []
    else other_version required version ∷ []

-- The outer loop.
unfoldable pub check_groups : List GroupVersion → List ApiGroup → List VersionError
unfolding preferred_version version_errors
check_groups [] groups = []
check_groups (required ∷ others) groups =
    version_errors required (preferred_version required groups) ++ check_groups others groups

unfoldable pub required_groups : SchemeGroups → Bool → List GroupVersion
required_groups scheme acl_enabled =
    if acl_enabled
    then scheme.split ∷ scheme.specs ∷ scheme.access ∷ []
    else scheme.split ∷ scheme.specs ∷ []

pub data Checked : Type 0 where
  supported : Checked
  no_groups : Checked
  unsupported : List VersionError → Checked

abbrev pub checked : List VersionError → Checked
checked [] = supported
checked (e ∷ errs) = unsupported (e ∷ errs)

-- CheckSMIVersion, given the server's groups; `none` is the error of the discovery.
unfoldable pub check_smi_version : SchemeGroups → Option (List ApiGroup) → Bool → Checked
unfolding check_groups required_groups
check_smi_version scheme none acl_enabled = no_groups
check_smi_version scheme (some groups) acl_enabled =
    checked (check_groups (required_groups scheme acl_enabled) groups)

-- The first group of the server that has the required name prefers the required version.
abbrev pub IsPreferred : GroupVersion → List ApiGroup → Type 0
IsPreferred required [] = ⊥
IsPreferred required (g ∷ groups) =
    ((required.group ≡ g.name) × (g.preferred ≡ required.version) × (g.preferred ≢ ""))
    ⊎ ((required.group ≢ g.name) × IsPreferred required groups)

version_errors_iff :
    (required : GroupVersion) (version : String)
    → (version_errors required version ≡ []) ↔ ((version ≡ required.version) × (version ≢ ""))
unfolding version_errors
version_errors_iff required version =
    ground (arith, eq_iff version "", eq_iff version required.version)

preferred_version_iff :
    (required : GroupVersion) (groups : List ApiGroup)
    → ((preferred_version required groups ≡ required.version)
        × (preferred_version required groups ≢ ""))
      ↔ IsPreferred required groups
unfolding preferred_version
preferred_version_iff required [] = ground arith
preferred_version_iff required (g ∷ groups) =
    ground (arith, eq_iff required.group g.name, preferred_version_iff required groups)

append-eq-nil_iff : {A : Type 0} (xs ys : List A) → ((xs ++ ys) ≡ []) ↔ ((xs ≡ []) × (ys ≡ []))
append-eq-nil_iff [] ys = ground arith
append-eq-nil_iff (x ∷ xs) ys = ground arith

check_groups_iff :
    (required : List GroupVersion) (groups : List ApiGroup)
    → (check_groups required groups ≡ []) ↔ All (λ r. IsPreferred r groups) required
unfolding check_groups
check_groups_iff [] groups = ground arith
check_groups_iff (r ∷ required) groups = ground (
  arith,
  append-eq-nil_iff (version_errors r (preferred_version r groups)) (check_groups required groups),
  version_errors_iff r (preferred_version r groups),
  preferred_version_iff r groups,
  check_groups_iff required groups,
)

-- The server's groups are known and prefer what is required.
abbrev pub IsAccepted : SchemeGroups → Option (List ApiGroup) → Bool → Type 0
IsAccepted scheme none acl_enabled = ⊥
IsAccepted scheme (some groups) acl_enabled =
    IsPreferred scheme.split groups
    × IsPreferred scheme.specs groups
    × (acl_enabled ≡ true → IsPreferred scheme.access groups)

checked_iff : (errs : List VersionError) → (checked errs ≡ supported) ↔ (errs ≡ [])
checked_iff [] = ground arith
checked_iff (e ∷ errs) = ground arith

required_groups_iff :
    (scheme : SchemeGroups) (groups : List ApiGroup) (acl_enabled : Bool)
    → All (λ r. IsPreferred r groups) (required_groups scheme acl_enabled)
      ↔ IsAccepted scheme (some groups) acl_enabled
unfolding required_groups
required_groups_iff scheme groups true =
    ((λ (s, (p, (a, _))). (s, p, λ _. a)), λ (s, p, a). (s, (p, (a refl, tt))))
required_groups_iff scheme groups false =
    ((λ (s, (p, _)). (s, p, λ e. absurd (cc e))), λ (s, p, _). (s, (p, tt)))

-- CheckSMIVersion accepts a server exactly when its groups can be listed and the server prefers, for the
-- split and the specs group, and in ACL mode for the access group, the version that the program requires.
pub check_smi_version_iff :
    (scheme : SchemeGroups) (answer : Option (List ApiGroup)) (acl_enabled : Bool)
    → (check_smi_version scheme answer acl_enabled ≡ supported)
      ↔ IsAccepted scheme answer acl_enabled
unfolding check_smi_version
check_smi_version_iff scheme none acl_enabled = ground arith
check_smi_version_iff scheme (some groups) acl_enabled =
    let required = required_groups scheme acl_enabled in
    let errs = checked_iff (check_groups required groups) in
    let all = check_groups_iff required groups in
    let accepted = required_groups_iff scheme groups acl_enabled in
    ((λ e. accepted.0 (all.0 (errs.0 e))), λ a. errs.1 (all.1 (accepted.1 a)))
