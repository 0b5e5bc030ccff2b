-- ===== src/Cleanup/Shadows.antt =====
-- Which shadow services a cleanup leaves.
use maesh.Common.{
  String, List, [], ◌∷◌, ◌++◌, ◌≡◌, refl, ap, none, some, inl, inr, Option-cases, Result, ok, err,
}
use maesh.Dns.Exec.{DnsError, api_failed}
use maesh.Dns.Client.{KubeApi}
use maesh.Cleanup.{ServiceApi, delete_services, clean_shadow_services}

module _ (api : KubeApi) (services : ServiceApi api.State) where
  -- The deletions of these services, one after the other, lead from one state to another.
  pub data Deleted : List (String × String) → api.State → api.State → Type 0 where
    none_left : {s : api.State} → Deleted [] s s
    deleted :
        {namespace name : String} {others : List (String × String)} {s s' s'' : api.State}
        → services.delete_service namespace name s ≡ some s'
        → Deleted others s' s''
        → Deleted ((namespace, name) ∷ others) s s''

  -- How the cleanup of a list ends: with all of it deleted, or at the first service that the API refuses
  -- to delete, with those before it deleted.
  pub data Cleaned (shadows : List (String × String)) (s : api.State)
      : Result {0, 0} DnsError Unit × api.State → Type 0 where
    all_deleted : {s' : api.State} → Deleted shadows s s' → Cleaned shadows s (ok tt, s')
    refused :
        (before : List (String × String)) (namespace name : String) (after : List (String × String))
        {s' : api.State}
        → before ++ (namespace, name) ∷ after ≡ shadows
        → Deleted before s s'
        → services.delete_service namespace name s' ≡ none
        → Cleaned shadows s (err api_failed, s')

  Cleaned-cons :
      (namespace name : String) (others : List (String × String)) {s s' : api.State}
      {r : Result {0, 0} DnsError Unit × api.State}
      → services.delete_service namespace name s ≡ some s'
      → Cleaned others s' r
      → Cleaned ((namespace, name) ∷ others) s r
  Cleaned-cons namespace name others e (all_deleted d) = all_deleted (deleted e d)
  Cleaned-cons namespace name others e (refused before ns n after split d kept) =
      refused ((namespace, name) ∷ before) ns n after (ap (λ xs. (namespace, name) ∷ xs) split)
        (deleted e d) kept

  delete_services-Cleaned :
      (shadows : List (String × String)) (s : api.State)
      → Cleaned shadows s (delete_services api services shadows s)
  unfolding delete_services
  delete_services-Cleaned [] s = all_deleted none_left
  delete_services-Cleaned ((namespace, name) ∷ others) s =
      elim (Option-cases (services.delete_service namespace name s)) [
        | inl e ↦ rw (delete_services, e) (refused [] namespace name others refl none_left e)
        | inr (s', e) ↦
            rw (delete_services, e)
              (Cleaned-cons namespace name others e (delete_services-Cleaned others s'))
      ]

  -- CleanShadowServices deletes exactly the listed shadow services, in their order; it stops with an error
  -- at the first one that the API refuses to delete, and those before it stay deleted.
  pub clean_shadow_services-Cleaned :
      (namespace : String) (s : api.State) (shadows : List (String × String))
      → services.list_shadow_services namespace s ≡ some shadows
      → Cleaned shadows s (clean_shadow_services api services namespace s)
  unfolding clean_shadow_services
  clean_shadow_services-Cleaned namespace s shadows e =
      rw (clean_shadow_services, e) (delete_services-Cleaned shadows s)
