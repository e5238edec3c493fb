-- ===== src/Operator/Github/Tokens/Rate.antt =====
-- How often facades/gh.go hands out a registration token or a remove token that it made once.
use kube_actions.Prelude.{
  ℕ, ◌+◌, ◌-◌, ◌≤◌, ◌<◌, ◌≡◌, String, Bool, true, false, Option, none, some, bit, inl, inr, leb,
  ltb, nat_eq, if◌then◌else◌, arith, Option-cases, Bool-cases,
}
use Prim.Native.Nat.{◌^◌}
use kube_actions.Prelude.Effect.{Ensures}
use kube_actions.Operator.Github.{Github, Variables, TokenCache, Token}
use kube_actions.Operator.Github.Repositories.Allowed.{Forgets}
use kube_actions.Operator.Github.Tokens.{
  Kind, registration, remove, add_uint64, cache_of, set_cache, count_up, add_container,
  try_get_token,
}

add_uint64-small : (r : ℕ) → r + 1 < 2 ^ 64 → add_uint64 r ≡ r + 1
unfolding add_uint64
add_uint64-small r small = omega (arith, small)

module _ (github : Github) (forgets : Forgets github.container_cache) where
  open github use {container_cache}

  -- How often the token in the container may still be handed out.
  abbrev pub left : ℕ → TokenCache github → ℕ
  left p cache = if ltb p cache.next then 59 - (cache.container p).rate else 60

  -- The rate of the container, 0 before it is allocated.
  abbrev pub rate_at : ℕ → TokenCache github → ℕ
  rate_at p cache = if ltb p cache.next then (cache.container p).rate else 0

  -- The cache has only pointers to containers that were allocated.
  abbrev pub IsAllocated : TokenCache github → Type 0
  IsAllocated cache =
      (time : ℕ) (key : String) (q : ℕ)
      → container_cache.get cache.entries time key ≡ some q
      → q < cache.next

  -- `used` uses are made up for by a smaller rest, and the rate is at most `t`.
  pub record Within (p used b t : ℕ) (cache : TokenCache github) : Type 0 where
    pub allocated : IsAllocated cache
    pub budget : used + left p cache ≤ b
    pub low : rate_at p cache ≤ t

  count_up-rate :
      (p q b t : ℕ) (cache : TokenCache github)
      → t + 1 < 2 ^ 64
      → q < cache.next
      → left p cache ≤ b
      → rate_at p cache ≤ t
      → (left p (count_up github q cache) ≤ b)
        × (rate_at p (count_up github q cache) ≤ t + 1)
        × (((count_up github q cache).container q).rate < 60
            → bit (nat_eq q p) + left p (count_up github q cache) ≤ b)
  count_up-rate p q b t cache small below room low =
      ground (arith, add_uint64-small (cache.container q).rate)

  add_container-rate :
      (p b t time : ℕ) (key : String) (token : Token) (cache : TokenCache github)
      → left p cache ≤ b
      → rate_at p cache ≤ t
      → (bit (nat_eq cache.next p) + left p (add_container github key time token cache) ≤ b)
        × (rate_at p (add_container github key time token cache) ≤ t)
  add_container-rate p b t time key token cache room low = ground arith

  count_up-Within :
      (p q b t time : ℕ) (key : String) (cache : TokenCache github)
      → t + 1 < 2 ^ 64
      → container_cache.get cache.entries time key ≡ some q
      → Within p 0 b t cache
      → Within p 0 b (t + 1) (count_up github q cache)
        × (leb 60 ((count_up github q cache).container q).rate ≡ false
            → Within p (bit (nat_eq q p)) b (t + 1) (count_up github q cache))
  count_up-Within p q b t time key cache small found w =
      let (room, low, used) =
        count_up-rate p q b t cache small (w.allocated time key q found) (omega (arith, w.budget))
          w.low in
      (
        record { allocated = w.allocated; budget = omega (arith, room); low = low },
        λ few. record { allocated = w.allocated; budget = used (ground (arith, few)); low = low },
      )

  pub add_container-Within :
      (p b t time : ℕ) (key : String) (token : Token) (cache : TokenCache github)
      → Within p 0 b t cache
      → Within p (bit (nat_eq cache.next p)) b t (add_container github key time token cache)
  add_container-Within p b t time key token cache w =
      let (used, low) =
        add_container-rate p b t time key token cache (omega (arith, w.budget)) w.low in
      record {
        allocated = λ later asked q found.
            elim (forgets.get-set_default cache.entries time later key asked cache.next q found) [
              | inl same ↦ omega (arith, same)
              | inr old ↦ omega (arith, w.allocated later asked q old)
            ];
        budget = used;
        low = low;
      }

  -- A container that was handed out of this cache, by a call for that one.
  abbrev pub hit : Kind → Kind → ℕ → ℕ → ℕ
  hit registration registration q p = bit (nat_eq q p)
  hit remove remove q p = bit (nat_eq q p)
  hit _ _ q p = 0

  module _ (k asked : Kind) (p b : ℕ) where
    abbrev pub In : ℕ → ℕ → Variables github → Type 0
    In used t s = Within p used b t (cache_of github k s)

    abbrev pub Tried : ℕ → Option ℕ → Variables github → Type 0
    Tried t none s = In 0 t s
    Tried t (some q) s = In (hit k asked q p) t s

    abbrev pub Handed : ℕ → ℕ → Variables github → Type 0
    Handed t q s = In (hit k asked q p) t s

    pub In-later : (t : ℕ) (s : Variables github) → In 0 t s → In 0 (t + 1) s
    In-later t s w = record {
      allocated = w.allocated;
      budget = w.budget;
      low = omega (arith, w.low);
    }

  pub In-steady :
      (k asked : Kind) (p b used t : ℕ) (s : Variables github) (w : github.World)
      → In k asked p b used t s
      → In k asked p b used t (record s { world = w })
  In-steady registration asked p b used t s w h = h
  In-steady remove asked p b used t s w h = h

  set_cache-Within :
      (k asked : Kind) (p q b t time : ℕ) (key : String) (s : Variables github)
      → t + 1 < 2 ^ 64
      → container_cache.get (cache_of github asked s).entries time key ≡ some q
      → In k asked p b 0 t s
      → (w : github.World)
      → let s' =
          set_cache github asked
            (count_up github q (cache_of github asked s))
            (record s { world = w }) in
        In k asked p b 0 (t + 1) s'
        × (leb 60 ((count_up github q (cache_of github asked s)).container q).rate ≡ false
            → In k asked p b (hit k asked q p) (t + 1) s')
  set_cache-Within registration registration p q b t time key s small found h w =
      count_up-Within p q b t time key _ small found h
  set_cache-Within remove remove p q b t time key s small found h w =
      count_up-Within p q b t time key _ small found h
  set_cache-Within registration remove p q b t time key s small found h w =
      let later = In-later registration remove p b t s h in (later, λ _. later)
  set_cache-Within remove registration p q b t time key s small found h w =
      let later = In-later remove registration p b t s h in (later, λ _. later)

  module _ (k asked : Kind) (p b : ℕ) where
    chosen-Tried :
        (fresh : Bool) (t q : ℕ) (s : Variables github)
        → In k asked p b 0 t s
        → In k asked p b (hit k asked q p) t s
        → Tried k asked p b t (if fresh then some q else none) s
    chosen-Tried true t q s h h' = h'
    chosen-Tried false t q s h h' = h

    pub try_get_token-Tried :
        (t : ℕ) (key : String)
        → t + 1 < 2 ^ 64
        → Ensures
            (In k asked p b 0 t)
            (try_get_token github asked key)
            (Tried k asked p b (t + 1))
            (In k asked p b 0 (t + 1))
    unfolding try_get_token
    try_get_token-Tried t key small = record {
      run = λ s w.
          let time = (github.now s.world).0 in
          let cache = cache_of github asked s in
          elim (Option-cases (container_cache.get cache.entries time key)) [
            | inl e ↦
                rw (e, try_get_token)
                  (In-steady k asked p b 0 (t + 1) s _ (In-later k asked p b t s w))
            | inr (q, e) ↦
                let counted = set_cache-Within k asked p q b t time key s small e w in
                elim (Bool-cases (leb 60 ((count_up github q cache).container q).rate)) [
                  | inl full ↦ rw (e, full, try_get_token) (counted _).0
                  | inr few ↦
                      rw (e, few, try_get_token)
                        (chosen-Tried _ (t + 1) q _ (counted _).0 ((counted _).1 few))
                ]
          ];
    }
