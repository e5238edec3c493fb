-- ===== src/Operator/Pod/Filters/Split.antt =====
-- The filters of actionsrunner/util/filters.go: what two opposite filters keep together, and what
-- is left of the resources.
use mathlib.Core.List.{Perm, perm_middle}
use mathlib.Core.List.Perm
use kube_actions.Prelude.{
  String, ◌≡◌, refl, Bool, false, not, List, [], ◌∷◌, ◌++◌, Option, none, some, ◌||◌, arith, ◌==◌,
  eq_iff, if◌then◌else◌, select, Bool-cases, inl, inr,
}
use kube_actions.Prelude.GoMap.{GoMap, get, get-put}
use kube_actions.Operator.Api.Core.{Quantity, ResourceRequirements}
use kube_actions.Operator.Pod.Filters.{copy_entry, filter_resources, filtered_resource_requirements}

-- What fails a test and what passes it are together all that there is.
pub select-perm {ℓ} :
    {A : Type ℓ} (p : A → Bool) (xs : List A) → Perm (select (λ x. not (p x)) xs ++ select p xs) xs
unfolding select
select-perm p [] = Perm.nil
select-perm p (x ∷ xs) = elim (Bool-cases (p x)) [
  | inl e ↦
      rw (e, select)
        (Perm.trans (perm_middle (select (λ y. not (p y)) xs) (select p xs))
          (Perm.cons x (select-perm p xs)))
  | inr e ↦ rw (e, select) (Perm.cons x (select-perm p xs))
]

abbrev pub elem : String → List String → Bool
elem k [] = false
elem k (j ∷ js) = j == k || elem k js

abbrev or_else : Option Quantity → Option Quantity → Option Quantity
or_else none o = o
or_else (some q) o = some q

get-copy_entry :
    (from into : GoMap Quantity) (name k : String)
    → get (copy_entry from into name) k
      ≡ (if name == k then or_else (get from k) (get into k) else get into k)
get-copy_entry from into name k = go (get from name) refl
  where
    go :
        (o : Option Quantity)
        → get from name ≡ o
        → get (copy_entry from into name) k
          ≡ (if name == k then or_else (get from k) (get into k) else get into k)
    go none e = ground (arith, e, eq_iff name k)
    go (some q) e = ground (arith, e, eq_iff name k, get-put into name k q)

abbrev kept : GoMap Quantity → GoMap Quantity → List String → String → Option Quantity
kept from into names k = if elem k names then or_else (get from k) (get into k) else get into k

limits-filter_resources :
    (from into : ResourceRequirements) (names : List String) (k : String)
    → get (filter_resources from into names).limits k ≡ kept from.limits into.limits names k
unfolding filter_resources
limits-filter_resources from into [] k = refl
limits-filter_resources from into (name ∷ names) k = ground (
  arith,
  limits-filter_resources from
      (record {
        limits = copy_entry from.limits into.limits name;
        requests = copy_entry from.requests into.requests name;
      })
      names k,
  get-copy_entry from.limits into.limits name k,
)

requests-filter_resources :
    (from into : ResourceRequirements) (names : List String) (k : String)
    → get (filter_resources from into names).requests k ≡ kept from.requests into.requests names k
unfolding filter_resources
requests-filter_resources from into [] k = refl
requests-filter_resources from into (name ∷ names) k = ground (
  arith,
  requests-filter_resources from
      (record {
        limits = copy_entry from.limits into.limits name;
        requests = copy_entry from.requests into.requests name;
      })
      names k,
  get-copy_entry from.requests into.requests name k,
)

-- The filtered limits and requests have, for each listed name, the quantity that was there, and
-- nothing for any other name.
pub filtered_resources-exact :
    (from : ResourceRequirements) (names : List String) (k : String)
    → (get (filtered_resource_requirements from names).limits k
        ≡ (if elem k names then get from.limits k else none))
      × (get (filtered_resource_requirements from names).requests k
          ≡ (if elem k names then get from.requests k else none))
unfolding filtered_resource_requirements get
filtered_resources-exact from names k = (
  ground (arith, limits-filter_resources from (record { limits = []; requests = [] }) names k),
  ground (arith, requests-filter_resources from (record { limits = []; requests = [] }) names k),
)
