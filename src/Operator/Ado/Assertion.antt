-- ===== src/Operator/Ado/Assertion.antt =====
-- util/jwt.go and util/pkcs7.go.
use kube_actions.Prelude.{ℕ, ◌+◌, ◌-◌, ◌*◌, String, Option, List}
use kube_actions.Prelude.Effect.{◌>>=◌}
use kube_actions.Prelude.Result.{Result}
use kube_actions.Operator.Token.{Error}
use kube_actions.Operator.Dot.{PrivateKey}
use kube_actions.Operator.Ado.{Azure, Call, called, checked}

module _ (azure : Azure) where
  -- Valid for five minutes, from one minute ago on.
  unfoldable pub client_assertion : String → String → Option PrivateKey → Call azure String
  client_assertion client_id token_endpoint key = do
    time ← called azure azure.now
    uuid ← called azure azure.new_uuid
    checked azure (
        azure.signed key (record {
          issuer = client_id;
          subject = client_id;
          audience = token_endpoint;
          expiry = time + 4 * 60;
          not_before = time - 60;
          issued_at = time;
          claims_id = uuid;
        }))

  -- The bytes of the data, decrypted with an initialization vector and a key.
  unfoldable pub decrypt_pkcs7 : List ℕ → List ℕ → List ℕ → Result Error (List ℕ)
  decrypt_pkcs7 encrypted iv key =
      azure.decrypt (record { initialization = iv; encrypted_content = encrypted }) key
