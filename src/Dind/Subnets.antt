-- ===== src/Dind/Subnets.antt =====
-- The rewriting of a docker address into the loopback range, by `dockerSubnetOctetReplRegex` of
-- dind/docker.go: a leading `[0-9]{1,3}\.[0-9]{1,3}` is replaced by "127.<octet>".
pub mod Shape
use Prim.Native.Char.{Char, code}
use Prim.Native.String
use Prim.Native.String.{◌++◌}
use kube_actions.Prelude.{
  ℕ, zero, suc, ◌+◌, ◌/◌, ◌%◌, ◌-◌, ◌*◌, ◌<◌, ◌≤◌, String, ◌≡◌, refl, Bool, true, false, Option,
  none, some, arith, ltb, leb, nat_eq, ◌&&◌, if◌then◌else◌,
}

-- A decimal digit, as text.
unfoldable pub digit : ℕ → String
digit zero = "0"
digit (suc zero) = "1"
digit (suc (suc zero)) = "2"
digit (suc (suc (suc zero))) = "3"
digit (suc (suc (suc (suc zero)))) = "4"
digit (suc (suc (suc (suc (suc zero))))) = "5"
digit (suc (suc (suc (suc (suc (suc zero)))))) = "6"
digit (suc (suc (suc (suc (suc (suc (suc zero))))))) = "7"
digit (suc (suc (suc (suc (suc (suc (suc (suc zero)))))))) = "8"
digit _ = "9"

unfoldable pub decimal_rounds : ℕ → ℕ → String
decimal_rounds zero n = ""
decimal_rounds (suc rounds) n =
    let front = decimal_rounds rounds (n / 10) in
    if ltb n 10 then digit n else front ++ digit (n % 10)

-- `%d` of a number that is not negative: it has at most `n + 1` digits.
unfoldable pub decimal : ℕ → String
unfolding decimal_rounds digit
decimal n = decimal_rounds (suc n) n

unfoldable pub is_digit : Char → Bool
is_digit c = leb b'0' (code c) && leb (code c) b'9'

-- `[0-9]{0,k}`, greedy: how many digits it takes, and what follows them.
unfoldable pub take_digits : ℕ → String → ℕ × String
unfolding is_digit
take_digits zero s = (0, s)
take_digits (suc k) String.[] = (0, "")
take_digits (suc k) (String.◌∷◌ c s) =
    let (n, rest) = take_digits k s in if is_digit c then (suc n, rest) else (0, String.◌∷◌ c s)

-- `\.`
unfoldable pub after_dot : String → Option String
after_dot String.[] = none
after_dot (String.◌∷◌ c s) = if nat_eq (code c) b'.' then some s else none

-- `[0-9]{1,3}`: what follows it.
unfoldable pub after_run : String → Option String
unfolding take_digits
after_run s = let (n, rest) = take_digits 3 s in if nat_eq n 0 then none else some rest

abbrev and_then : Option String → (String → Option String) → Option String
and_then none f = none
and_then (some s) f = f s

-- What follows a match of the regular expression at the start.
unfoldable pub after_match : String → Option String
unfolding after_run after_dot
after_match s = and_then (and_then (after_run s) after_dot) after_run

-- `fmt.Sprintf("%d.%d", hostProxySubnetFirstOctet, octet)`
unfoldable pub host_proxy_two_octets : ℕ → String
unfolding decimal
host_proxy_two_octets octet = decimal 127 ++ "." ++ decimal octet

-- `dockerSubnetOctetReplRegex.ReplaceAllLiteralString(address, hostProxyTwoOctets)`
unfoldable pub to_host_proxy : ℕ → String → String
unfolding after_match host_proxy_two_octets
to_host_proxy octet address = elim (after_match address) [
  | none ↦ address
  | some rest ↦ host_proxy_two_octets octet ++ rest
]

to_host_proxy_subnet : to_host_proxy 17 "172.16.0.0/16" ≡ "127.17.0.0/16"
unfolding to_host_proxy
to_host_proxy_subnet = refl

to_host_proxy_no_match : to_host_proxy 17 "fd00::/80" ≡ "fd00::/80"
unfolding to_host_proxy
to_host_proxy_no_match = refl
