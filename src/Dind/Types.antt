-- ===== src/Dind/Types.antt =====
-- dind/types.go, and the resource kinds and actions of dind/docker.go.
use kube_actions.Prelude.{ℕ, String, List}

pub data ResourceKind : Type 0 where
  network container : ResourceKind

pub data ResourceAction : Type 0 where
  create destroy start stop : ResourceAction

pub record Subnet : Type 0 where
  pub docker_subnet : String
  pub host_proxy_subnet : String
  pub second_octet : ℕ

pub record NetworkInfo : Type 0 where
  pub id : String
  pub action : ResourceAction
  pub subnets : List Subnet

pub record Port : Type 0 where
  pub proto : String
  pub port : ℕ

pub record ContainerInfo : Type 0 where
  pub id : String
  pub action : ResourceAction
  pub pid : ℕ
  pub ports : List Port
  pub ips : List String

-- The anonymous struct of `ContainerInspectInfo.Networks`.
pub record ContainerNetwork : Type 0 where
  pub id : String
  pub ip : String

pub record ContainerInspectInfo : Type 0 where
  pub pid : ℕ
  pub ports : List Port
  pub networks : List ContainerNetwork
