-- ===== src/Operator/Dot/Rsa.antt =====
-- dot/rsaparams.go: the key of a runner as eight byte slices, and back.
use kube_actions.Prelude.{
  ℕ, zero, suc, ◌+◌, ◌*◌, ◌/◌, ◌%◌, ◌<◌, ◌≤◌, ◌≡◌, refl, sym, ap, ◌∙◌, String, Option, none, some,
  List, [], ◌∷◌, nat_eq, if◌then◌else◌, arith, Bool-cases, inl, inr, length,
}
use Prim.Native.Nat.{◌^◌}
use kube_actions.Prelude.Outcome.{Outcome}
use kube_actions.Prelude.Result.{Result, ok, err, ◌>>=◌}
use kube_actions.Operator.Token.{Error, new_error}
use kube_actions.Operator.Dot.{RsaParameters, PrivateKey}

-- The bytes of a number before some others, the highest first and none of them a leading zero.
unfoldable pub bytes_before : ℕ → ℕ → List ℕ → List ℕ
bytes_before zero x rest = rest
bytes_before (suc fuel) x rest =
    let more = bytes_before fuel (x / 256) ((x % 256) ∷ rest) in if nat_eq x 0 then rest else more

-- `x.Bytes()`
unfoldable pub bytes : ℕ → List ℕ
unfolding bytes_before
bytes x = bytes_before x x []

unfoldable pub read_bytes : ℕ → List ℕ → ℕ
read_bytes acc [] = acc
read_bytes acc (b ∷ bs) = read_bytes (256 * acc + b) bs

-- `new(big.Int).SetBytes(bs)`
unfoldable pub set_bytes : List ℕ → ℕ
unfolding read_bytes
set_bytes bs = read_bytes 0 bs

-- `int(x.Int64())`, as the bits of the 64-bit integer.
unfoldable pub to_int : ℕ → ℕ
to_int x = x % 2 ^ 64

abbrev pub parameters_with : PrivateKey → ℕ → ℕ → RsaParameters
parameters_with key p q = record {
  d = some (bytes key.d);
  dp = some (bytes key.dp);
  dq = some (bytes key.dq);
  exponent = some (bytes key.e);
  inverse_q = some (bytes key.qinv);
  modulus = some (bytes key.n);
  p = some (bytes p);
  q = some (bytes q);
}

-- `NewRSAParameters` on the key that `rsa.GenerateKey` made, whose primes are indexed.
unfoldable pub with_primes : PrivateKey → List ℕ → Outcome Error RsaParameters
with_primes key (p ∷ q ∷ others) = Outcome.ok (parameters_with key p q)
with_primes key primes = Outcome.panic

unfoldable pub parameters_of : PrivateKey → Outcome Error RsaParameters
unfolding with_primes
parameters_of key = with_primes key key.primes

unfoldable pub new_rsa_parameters : Result Error PrivateKey → Outcome Error RsaParameters
unfolding parameters_of
new_rsa_parameters generated = elim generated [ err e ↦ Outcome.err e | ok key ↦ parameters_of key ]

-- `if x == nil { return nil, errors.New(…) }`
unfoldable pub present : Option (List ℕ) → String → Result Error (List ℕ)
present none name = err (new_error name)
present (some bs) name = ok bs

unfoldable pub to_rsa_private_key : RsaParameters → Result Error PrivateKey
unfolding present
to_rsa_private_key parameters = do
  d ← present parameters.d ".D == nil"
  dp ← present parameters.dp ".DP == nil"
  dq ← present parameters.dq ".DQ == nil"
  exponent ← present parameters.exponent ".Exponent == nil"
  inverse_q ← present parameters.inverse_q ".InverseQ == nil"
  modulus ← present parameters.modulus ".Modulus == nil"
  p ← present parameters.p ".P == nil"
  q ← present parameters.q ".Q == nil"
  ok (record {
    n = set_bytes modulus;
    e = to_int (set_bytes exponent);
    d = set_bytes d;
    primes = set_bytes p ∷ set_bytes q ∷ [];
    dp = set_bytes dp;
    dq = set_bytes dq;
    qinv = set_bytes inverse_q;
  })

-- The rounds of `bytes_before` are enough: the number is used up.
read_bytes-bytes_before :
    (fuel x : ℕ) (rest : List ℕ)
    → x ≤ fuel
    → read_bytes 0 (bytes_before fuel x rest) ≡ read_bytes x rest
unfolding bytes_before read_bytes
read_bytes-bytes_before zero x rest h =
    ap (λ y. read_bytes y rest) (let e : 0 ≡ x = omega arith in e)
read_bytes-bytes_before (suc fuel) x rest h = elim (Bool-cases (nat_eq x 0)) [
  | inl done ↦ rw done (ap (λ y. read_bytes y rest) (let e : 0 ≡ x = ground arith in e))
  | inr more ↦ rw more (
      read_bytes-bytes_before fuel (x / 256) ((x % 256) ∷ rest) (ground arith)
      ∙ ap (λ y. read_bytes y rest) (let e : 256 * (x / 256) + x % 256 ≡ x = omega arith in e))
]

set_bytes-bytes : (x : ℕ) → set_bytes (bytes x) ≡ x
unfolding set_bytes bytes read_bytes
set_bytes-bytes x = read_bytes-bytes_before x x [] (omega arith)

to_int-small : (x : ℕ) → x < 2 ^ 63 → to_int x ≡ x
unfolding to_int
to_int-small x small = omega arith

-- A key with two primes and an exponent below 2^63 can be written as parameters, and they are read
-- back as the same key.
pub to_rsa_private_key-parameters_of :
    (key : PrivateKey)
    → length key.primes ≡ 2
    → key.e < 2 ^ 63
    → (parameters : RsaParameters) × (parameters_of key ≡ Outcome.ok parameters)
      × (to_rsa_private_key parameters ≡ ok key)
unfolding to_rsa_private_key parameters_of
to_rsa_private_key-parameters_of key two small = by_primes key.primes two refl
  where
    by_primes :
        (primes : List ℕ)
        → length primes ≡ 2
        → key.primes ≡ primes
        → (parameters : RsaParameters) × (parameters_of key ≡ Outcome.ok parameters)
          × (to_rsa_private_key parameters ≡ ok key)
    by_primes [] two e = absurd (omega (arith, two))
    by_primes (p ∷ []) two e = absurd (omega (arith, two))
    by_primes (p ∷ q ∷ r ∷ others) two e = absurd (omega (arith, two))
    by_primes (p ∷ q ∷ []) two e = (
      parameters_with key p q,
      ap (with_primes key) e,
      simp (set_bytes-bytes, to_int-small key.e small)
          (ap (λ l. ok (record key { primes = l })) (sym e)),
    )
