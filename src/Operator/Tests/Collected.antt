-- ===== src/Operator/Tests/Collected.antt =====
-- A collection with a wire that is no longer valid.
use kube_actions.Prelude.{◌≡◌, refl, true, [], ◌∷◌, none, some}
use kube_actions.Prelude.Outcome.{Outcome}
use kube_actions.Prelude.GoMap.{get, put, delete}
use kube_actions.Operator.Token.{access_token}
use kube_actions.Operator.Dot.{DotFiles}
use kube_actions.Operator.Dot.Rsa.{set_bytes, to_rsa_private_key}
use kube_actions.Operator.Github
use kube_actions.Operator.Github.Answered.{is_failure}
use kube_actions.Operator.Github.Repositories
use kube_actions.Operator.Github.Credentials.{get_tenant_credential}
use kube_actions.Operator.Ado
use kube_actions.Operator.Ado.Agent.{init_for_crud, init_for_run}
use kube_actions.Operator.Ado.Session.{init_session, deinit_session}
use kube_actions.Operator.Wire.Line
use kube_actions.Operator.Wire.Line.{no_files}
use kube_actions.Operator.Wire.Collection.{Collection, key_of, wire_for, try_destroy}
use kube_actions.Operator.Wire.Collection.Served.{Served, wire_for-Served}
use kube_actions.Operator.Wire.Collection.Removed.{Removed, try_destroy-Removed}
use kube_actions.Operator.Tests.Built.{runner_with}
use kube_actions.Operator.Tests.Asked.{private_only}
use kube_actions.Operator.Tests.Wired.{ports, line}

abbrev holding : Collection ports private_only
holding = record {
  registry = (key_of (runner_with []), 0) ∷ [];
  wire = λ p. record (line.wire) { invalid = true };
  made = 1;
  shared = line.shared;
}

wire_for-Served_example :
    Served ports private_only
      (key_of (runner_with []))
      holding
      (wire_for ports private_only (runner_with []) none holding)
wire_for-Served_example = wire_for-Served ports private_only (runner_with []) none holding

try_destroy-Removed_example :
    Removed ports private_only
      (key_of (runner_with []))
      holding
      (try_destroy ports private_only (key_of (runner_with [])) holding).1
try_destroy-Removed_example =
    try_destroy-Removed ports private_only (key_of (runner_with [])) holding

-- Files with a key, all of whose numbers are one.
abbrev files : DotFiles
files = record no_files {
  rsa_parameters = record {
    d = some (1 ∷ []);
    dp = some (1 ∷ []);
    dq = some (1 ∷ []);
    exponent = some (1 ∷ []);
    inverse_q = some (1 ∷ []);
    modulus = some (1 ∷ []);
    p = some (1 ∷ []);
    q = some (1 ∷ []);
  };
}

-- The invalid wire is replaced by one that is made.
replaced : (wire_for ports private_only (runner_with []) (some files) holding).0 ≡ Outcome.ok 1
unfolding wire_for Line.written Line.to_client deinit_session Ado.read Line.read Line.to_github
    Repositories.init Github.called is_failure Github.counted get Line.deref get_tenant_credential
    Line.to_ado init_for_crud init_for_run init_session Ado.checked Ado.written Ado.required
    Ado.asked Ado.deref Ado.called Ado.told access_token set_bytes to_rsa_private_key put delete
replaced = refl
