-- ===== src/CloudStores/Gke/Projects.antt =====
-- pkg/store/kubeconfig_store_gke.go: the initialisation, which finds the projects. Google's client
-- libraries and the runs of gcloud are parameters.
use kswitch.Prelude.{
  Text, text, ◌==◌, Bool, true, false, if◌then◌else◌, is_empty, is_elem, Option, none, some, List,
  [], ◌∷◌,
}
use kswitch.Prelude.Dict.{Dict, assign}
use kswitch.Prelude.Go.{Go, ok, err, ◌>>=◌, ◌>>◌}
use kswitch.CloudStores.Gke.{
  Config, Error, no_client, no_login, no_accounts, account_missing, account_inactive, no_manager,
  no_projects,
}

-- What the initialisation meets: whether a client is made, at first and after a login with gcloud, the
-- accounts that gcloud lists, with their status, and the pages of the projects, by name and ID, with
-- whether the last request failed.
pub record Google : Type 0 where
  pub gcloud : Text
  pub client_made : Bool
  pub login : Bool
  pub client_made_then : Bool
  pub accounts : Option (List (Text × Text))
  pub manager_made : Bool
  pub pages : List (List (Text × Text))
  pub pages_failed : Bool

module _ (google : Google) where
  -- gcloud auth application-default login
  logged_in : Go Error (Unit {0})
  logged_in =
      if is_empty google.gcloud then err no_client else if google.login then ok tt else err no_login

  client_then : Go Error (Unit {0})
  client_then = if google.client_made_then then ok tt else err no_client

  unfoldable pub connect : Go Error (Unit {0})
  unfolding logged_in client_then
  connect = if google.client_made then ok tt else logged_in >> client_then

  -- The loop of isAccountActive; `seen` is accountFound.
  unfoldable pub active_in : Text → Bool → List (Text × Text) → Go Error Bool
  active_in account seen [] = if seen then ok false else err account_missing
  active_in account seen ((name, status) ∷ accounts) =
      let later = active_in account (if name == account then true else seen) accounts in
      if name == account then if status == text "ACTIVE" then ok true else later else later

  active_of : Text → Option (List (Text × Text)) → Go Error Bool
  active_of account none = err no_accounts
  active_of account (some []) = err no_accounts
  active_of account (some (a ∷ accounts)) = active_in account false (a ∷ accounts)

  -- isAccountActive
  unfoldable pub is_account_active : Text → Go Error Bool
  unfolding active_of
  is_account_active account = active_of account google.accounts

  with_account : Option Text → Go Error (Unit {0})
  with_account none = ok tt
  with_account (some account) =
      is_account_active account >>= λ active. if active then ok tt else err account_inactive

  is_allowed : List Text → Text → Bool
  is_allowed [] id = true
  is_allowed (p ∷ ids) id = is_elem id (p ∷ ids)

  unfoldable pub remember_projects : List Text → List (Text × Text) → Dict Text → Dict Text
  unfolding is_allowed
  remember_projects ids [] projects = projects
  remember_projects ids ((name, id) ∷ page) projects =
      remember_projects ids page (if is_allowed ids id then assign projects name id else projects)

  unfoldable pub remember_pages : List Text → List (List (Text × Text)) → Dict Text → Dict Text
  remember_pages ids [] projects = projects
  remember_pages ids (page ∷ pages) projects =
      remember_pages ids pages (remember_projects ids page projects)

  -- After a failed list of the projects there is a login, and the list is not asked for again.
  after_pages : Go Error (Unit {0})
  unfolding logged_in
  after_pages = if google.pages_failed then logged_in else ok tt

  some_projects : Dict Text → Go Error (Dict Text)
  some_projects [] = err no_projects
  some_projects (p ∷ projects) = ok (p ∷ projects)

  manager : Go Error (Unit {0})
  manager = if google.manager_made then ok tt else err no_manager

  -- The method initialize: ProjectNameToID, from what it was.
  unfoldable pub initialize : Config → Dict Text → Go Error (Dict Text)
  unfolding with_account manager after_pages some_projects
  initialize cfg projects =
      connect
      >> with_account cfg.gcp_account
      >> manager
      >> after_pages
      >> some_projects (remember_pages cfg.project_ids google.pages projects)
