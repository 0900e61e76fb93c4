-- ===== src/Instance/Requests.antt =====
-- internal/controller/instance/controller.go: the names in a request and the client for it.
use kubernetes_resource_orch.Common.{
  ◌≡◌, ◌≢◌, refl, true, ◌||◌, [], ◌∷◌, ◌++◌, Option, none, some, inl, inr, Bool-cases, arith, Text,
  codes, is_empty_text, Map, lookup, lacks, Result, ok, err,
}
use kubernetes_resource_orch.Metadata.GroupVersion.{split_slash}
use kubernetes_resource_orch.Instance.{Cluster}
use kubernetes_resource_orch.Instance.Controller.{
  ClientSet, ClientError, invalid_service_account, impersonation_failed, user_name,
  get_namespace_name, get_service_account_user_name, get_execution_client, with_account, pivoted,
  default_account,
}

split_slash-lacks : (t : Text) → lacks b'/' t ≡ true → split_slash t ≡ (t, [])
unfolding split_slash lacks
split_slash-lacks [] h = refl
split_slash-lacks (c ∷ cs) h = ground (arith, h, split_slash-lacks cs)

split_slash-append :
    (front rest : Text)
    → lacks b'/' front ≡ true
    → split_slash (front ++ b'/' ∷ rest) ≡ (front, (split_slash rest).0 ∷ (split_slash rest).1)
unfolding split_slash lacks
split_slash-append [] rest h = refl
split_slash-append (c ∷ cs) rest h = ground (arith, h, split_slash-append cs rest)

-- A key of the form namespace/name gives the two back, where neither has a slash and the namespace is
-- not empty. A name with no slash, the key of an object of the cluster, is taken for the namespace
-- too.
pub get_namespace_name-key :
    (namespace name : Text)
    → namespace ≢ []
    → name ≢ []
    → lacks b'/' namespace ≡ true
    → lacks b'/' name ≡ true
    → (get_namespace_name (namespace ++ b'/' ∷ name) ≡ (namespace, name))
      × (get_namespace_name name ≡ (name, name))
unfolding get_namespace_name
get_namespace_name-key [] name a b h k = absurd (a refl)
get_namespace_name-key (c ∷ cs) [] a b h k = absurd (b refl)
get_namespace_name-key (c ∷ cs) (d ∷ ds) a b h k = (
  rw (split_slash-append (c ∷ cs) (d ∷ ds) h, split_slash-lacks (d ∷ ds) k) refl,
  rw (split_slash-lacks (d ∷ ds) k) refl,
)

-- The account for a namespace: its own, else the one for all.
abbrev pub account_for : Map Text → Text → Option Text
account_for accounts namespace = elim (lookup namespace accounts) [
  | none ↦ lookup (codes "*") accounts
  | some sa ↦ some sa
]

-- The client for a namespace and the account that is set for it.
pub data Chooses (clients : ClientSet) (namespace : Text)
    : Option Text → Result ClientError Cluster → Type 0 where
  unset : Chooses clients namespace none (ok clients.dynamic)
  unnamed :
      {sa : Text}
      → (is_empty_text namespace || is_empty_text sa) ≡ true
      → Chooses clients namespace (some sa) (err invalid_service_account)
  refused :
      {sa : Text} (e : Text)
      → clients.with_impersonation (user_name namespace sa) ≡ err e
      → Chooses clients namespace (some sa) (err (impersonation_failed e))
  pivots :
      {sa : Text} (cluster : Cluster)
      → clients.with_impersonation (user_name namespace sa) ≡ ok cluster
      → Chooses clients namespace (some sa) (ok cluster)

account-Chooses :
    (clients : ClientSet) (namespace sa : Text)
    → Chooses clients namespace (some sa) (with_account clients namespace sa)
unfolding get_service_account_user_name
account-Chooses clients namespace sa =
    elim (Bool-cases (is_empty_text namespace || is_empty_text sa)) [
      | inl is ↦ rw is (unnamed is)
      | inr other ↦ rw other (by_answer (clients.with_impersonation (user_name namespace sa)) refl)
    ]
  where
    by_answer :
        (answer : Result Text Cluster)
        → clients.with_impersonation (user_name namespace sa) ≡ answer
        → Chooses clients namespace (some sa) (pivoted answer)
    by_answer (err e) said = refused e said
    by_answer (ok cluster) said = pivots cluster said

-- A namespace with an account of its own gets the client of that account in that namespace, another
-- one that of the account for all, if there is one; it gets an error, and no other client, if a name
-- is empty or the impersonation fails. Without an account it gets the controller's own client.
pub get_execution_client-Chooses :
    (clients : ClientSet) (accounts : Map Text) (namespace : Text)
    → Chooses clients namespace
        (account_for accounts namespace)
        (get_execution_client clients accounts namespace)
unfolding get_execution_client lookup
get_execution_client-Chooses clients [] namespace = unset
get_execution_client-Chooses clients (account ∷ accounts) namespace =
    by_own (lookup namespace (account ∷ accounts)) (lookup (codes "*") (account ∷ accounts))
  where
    by_own :
        (own every : Option Text)
        → Chooses clients namespace
            (elim own as (λ _. Option Text) [ none ↦ every | some sa ↦ some sa ])
            (elim own as (λ _. Result ClientError Cluster) [
              | none ↦ default_account clients namespace every
              | some sa ↦ with_account clients namespace sa
            ])
    by_own none none = unset
    by_own none (some sa) = account-Chooses clients namespace sa
    by_own (some own) every = account-Chooses clients namespace own
