-- ===== src/Operator/Dot.antt =====
-- operator/internal/controller/actionsrunner/dot: the settings, the credentials and the key of a
-- runner. Numbers of `math/big` are natural numbers here; a slice that may be nil is an option.
pub mod Rsa
use kube_actions.Prelude.{ℕ, String, Bool, Option, List}

-- `dot.Runner`
pub record Runner : Type 0 where
  pub agent_id : ℕ
  pub agent_name : String
  pub skip_session_recover : Bool
  pub pool_id : ℕ
  pub pool_name : String
  pub disable_update : Bool
  pub ephemeral : Bool
  pub server_url : String
  pub github_url : String
  pub work_folder : String
  pub monitor_socket_address : String
  pub is_hosted_server : Bool

pub record CredentialsData : Type 0 where
  pub client_id : String
  pub authorization_url : String
  pub oauth_endpoint_url : String
  pub require_fips_cryptography : String

pub record Credentials : Type 0 where
  pub scheme : String
  pub credentials_data : CredentialsData

pub record RsaParameters : Type 0 where
  pub d : Option (List ℕ)
  pub dp : Option (List ℕ)
  pub dq : Option (List ℕ)
  pub exponent : Option (List ℕ)
  pub inverse_q : Option (List ℕ)
  pub modulus : Option (List ℕ)
  pub p : Option (List ℕ)
  pub q : Option (List ℕ)

-- `rsa.PrivateKey`; `e` is an `int`, the precomputed values are `dp`, `dq` and `qinv`.
pub record PrivateKey : Type 0 where
  pub n : ℕ
  pub e : ℕ
  pub d : ℕ
  pub primes : List ℕ
  pub dp : ℕ
  pub dq : ℕ
  pub qinv : ℕ

-- `dot.Files`
pub record DotFiles : Type 0 where
  pub runner : Runner
  pub credentials : Credentials
  pub rsa_parameters : RsaParameters
