-- ===== src/Dind/Subnets/Shape.antt =====
-- The rewriting on dotted addresses, and why two networks never get the same loopback subnet.
use native.Mathlib.Decide.{dec_lt}
use Prim.Native.Char.{code}
use Prim.Native.String.{◌++◌}
use text.Mathlib.TextLemmas.{
  nil-append, cons-append, append_assoc, append_cancel_left, append_cancel_right,
}
use kube_actions.Prelude.{
  ℕ, zero, suc, ◌+◌, ◌-◌, ◌*◌, ◌<◌, ◌≤◌, String, ◌≡◌, refl, Bool, true, false, some, arith, leb,
  nat_eq, ◌&&◌, sym, ap, ◌∙◌,
}
use kube_actions.Dind.Subnets.{
  is_digit, take_digits, after_run, after_match, decimal, host_proxy_two_octets, to_host_proxy,
}

-- Only digits.
abbrev Digits : String → Type 0
Digits String.[] = Unit
Digits (String.◌∷◌ c s) = (is_digit c ≡ true) × Digits s

abbrev size : String → ℕ
size String.[] = 0
size (String.◌∷◌ c s) = suc (size s)

-- Between one and three digits.
abbrev pub IsRun : String → Type 0
IsRun s = Digits s × (1 ≤ size s) × (size s ≤ 3)

-- The text is empty or goes on with another character than a digit.
abbrev pub NoDigitFirst : String → Type 0
NoDigitFirst String.[] = Unit
NoDigitFirst (String.◌∷◌ c s) = is_digit c ≡ false

take_digits-stop : (k : ℕ) (s : String) → NoDigitFirst s → take_digits k s ≡ (0, s)
unfolding take_digits
take_digits-stop zero s h = refl
take_digits-stop (suc k) String.[] h = refl
take_digits-stop (suc k) (String.◌∷◌ c s) h = rw h

take_digits-append :
    (k : ℕ) (a s : String)
    → Digits a
    → size a ≤ k
    → NoDigitFirst s
    → take_digits k (a ++ s) ≡ (size a, s)
unfolding take_digits
take_digits-append k String.[] s d h e = rw nil-append (take_digits-stop k s e)
take_digits-append zero (String.◌∷◌ c a) s d h e = absurd (omega arith)
take_digits-append (suc k) (String.◌∷◌ c a) s d h e =
    rw (cons-append, d.0, take_digits-append k a s d.1 (omega arith) e)

dot-cons : (s : String) → "." ++ s ≡ String.◌∷◌ "." s
dot-cons s = rw (cons-append, nil-append)

after_run-append : (a s : String) → IsRun a → NoDigitFirst s → after_run (a ++ s) ≡ some s
unfolding after_run
after_run-append a s h e = rw (take_digits-append 3 a s h.0 h.2 e) (ground arith)

after_match-dotted :
    (a b rest : String)
    → IsRun a
    → IsRun b
    → NoDigitFirst rest
    → after_match (a ++ ("." ++ (b ++ rest))) ≡ some rest
unfolding after_match is_digit
after_match-dotted a b rest ha hb hr =
    rw (after_match, dot-cons (b ++ rest), after_run-append a (String.◌∷◌ "." (b ++ rest)) ha refl)
      (after_run-append b rest hb hr)

-- On an address `a.b…` the two numbers are replaced and the rest stays.
pub to_host_proxy-dotted :
    (octet : ℕ) (a b rest : String)
    → IsRun a
    → IsRun b
    → NoDigitFirst rest
    → to_host_proxy octet (a ++ ("." ++ (b ++ rest))) ≡ host_proxy_two_octets octet ++ rest
unfolding to_host_proxy
to_host_proxy-dotted octet a b rest ha hb hr =
    rw (to_host_proxy, after_match-dotted a b rest ha hb hr)

all_digits : String → Bool
all_digits String.[] = true
all_digits (String.◌∷◌ c s) = is_digit c && all_digits s

Digits-of_all_digits : (s : String) → all_digits s ≡ true → Digits s
unfolding all_digits
Digits-of_all_digits String.[] h = tt
Digits-of_all_digits (String.◌∷◌ c s) h = (ground arith, Digits-of_all_digits s (ground arith))

value : ℕ → String → ℕ
value n String.[] = n
value n (String.◌∷◌ c s) = value (n * 10 + (code c - b'0')) s

-- The test passes at `k`, at `k + 1` and so on, for a number of values.
passes_from : (ℕ → Bool) → ℕ → ℕ → Bool
passes_from test k zero = true
passes_from test k (suc more) = passes_from test (suc k) more && test k

passes_from-at :
    (test : ℕ → Bool) (k more o : ℕ)
    → passes_from test k more ≡ true
    → k ≤ o
    → o < k + more
    → test o ≡ true
unfolding passes_from
passes_from-at test k zero o t low high = absurd (omega arith)
passes_from-at test k (suc more) o t low high = elim (dec_lt k o) [
  | yes later ↦ ground (arith, passes_from-at test (suc k) more o)
  | no now ↦ let e : o ≡ k = omega arith in rw e (ground arith)
]

-- An octet is written with at most three digits, which read as its value.
reads_back : ℕ → Bool
reads_back o =
    all_digits (decimal o) && (leb (size (decimal o)) 3 && nat_eq (value 0 (decimal o)) o)

reads_back_table : passes_from reads_back 0 256 ≡ true
unfolding passes_from reads_back all_digits is_digit decimal value
reads_back_table = refl

decimal_octet :
    (o : ℕ) → o < 256 → Digits (decimal o) × (size (decimal o) ≤ 3) × (value 0 (decimal o) ≡ o)
unfolding reads_back
decimal_octet o h =
    let r = passes_from-at reads_back 0 256 o reads_back_table (omega arith) h in
    (Digits-of_all_digits (decimal o) (ground arith), ground arith, ground arith)

decimal-injective :
    (o p : ℕ) (r r' : String)
    → o < 256
    → p < 256
    → NoDigitFirst r
    → NoDigitFirst r'
    → decimal o ++ r ≡ decimal p ++ r'
    → o ≡ p
decimal-injective o p r r' ho hp hr hr' e =
    let (d, s, v) = decimal_octet o ho in
    let (d', s', v') = decimal_octet p hp in
    let same : (size (decimal o), r) ≡ (size (decimal p), r') =
      sym (take_digits-append 3 (decimal o) r d s hr)
      ∙ (ap (take_digits 3) e ∙ take_digits-append 3 (decimal p) r' d' s' hr') in
    let tails : decimal o ++ r ≡ decimal p ++ r =
      e ∙ ap (λ t. decimal p ++ t) (sym (ap (λ (q : ℕ × String). q.1) same)) in
    sym v ∙ (ap (value 0) (append_cancel_right (decimal o) (decimal p) r tails) ∙ v')

two_octets-append :
    (o : ℕ) (rest : String)
    → host_proxy_two_octets o ++ rest ≡ (decimal 127 ++ ".") ++ (decimal o ++ rest)
unfolding host_proxy_two_octets
two_octets-append o rest = simp append_assoc

-- If two addresses that begin with two numbers of one to three digits, joined by a dot and not
-- followed by a digit, are rewritten to the same text with two octets below 256, the octets are
-- the same.
pub to_host_proxy-injective :
    (o p : ℕ) (a b rest : String) (a' b' rest' : String)
    → o < 256
    → p < 256
    → IsRun a
    → IsRun b
    → NoDigitFirst rest
    → IsRun a'
    → IsRun b'
    → NoDigitFirst rest'
    → to_host_proxy o (a ++ ("." ++ (b ++ rest))) ≡ to_host_proxy p (a' ++ ("." ++ (b' ++ rest')))
    → o ≡ p
to_host_proxy-injective o p a b rest a' b' rest' ho hp ha hb hr ha' hb' hr' e =
    decimal-injective o p rest rest' ho hp hr hr' (
      append_cancel_left (decimal 127 ++ ".") (decimal o ++ rest) (decimal p ++ rest') (
        sym (two_octets-append o rest)
        ∙ (sym (to_host_proxy-dotted o a b rest ha hb hr)
            ∙ (e ∙ (to_host_proxy-dotted p a' b' rest' ha' hb' hr' ∙ two_octets-append p rest')))))
