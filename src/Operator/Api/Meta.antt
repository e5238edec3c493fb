-- ===== src/Operator/Api/Meta.antt =====
-- Metadata, the errors of the API server, and the helpers of operator/internal/controller/util.go
-- that read them.
use kube_actions.Prelude.{ℕ, String, Bool, false, Option, none, some, nat_eq, not}
use kube_actions.Prelude.GoMap.{GoMap}

-- `client.ObjectKey`
pub record ObjectKey : Type 0 where
  pub namespace : String
  pub name : String

-- `metav1.ObjectMeta`; a deletion timestamp is a number, and the zero time is 0.
pub record ObjectMeta : Type 0 where
  pub name : String
  pub generate_name : String
  pub namespace : String
  pub labels : GoMap String
  pub annotations : GoMap String
  pub deletion_timestamp : Option ℕ
  pub owner : Option String

-- What a call of the API server can fail with, as far as the code tells errors apart.
pub data ApiError : Type 0 where
  not_found already_exists : ApiError
  other : String → ApiError

-- `client.IgnoreNotFound`
unfoldable pub ignore_not_found : Option ApiError → Option ApiError
ignore_not_found (some not_found) = none
ignore_not_found e = e

-- `IgnoreAlreadyExists`
unfoldable pub ignore_already_exists : Option ApiError → Option ApiError
ignore_already_exists (some already_exists) = none
ignore_already_exists e = e

-- `IsBeingDeleted` on an object that is not nil.
unfoldable pub is_being_deleted : ObjectMeta → Bool
is_being_deleted m = elim m.deletion_timestamp [ none ↦ false | some t ↦ not (nat_eq t 0) ]
