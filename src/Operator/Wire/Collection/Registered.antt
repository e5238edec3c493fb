-- ===== src/Operator/Wire/Collection/Registered.antt =====
-- wire/collection.go: which wires an operation of the collection registers and works on.
use kube_actions.Prelude.{
  ◌≡◌, ◌≢◌, refl, ℕ, suc, ◌≤◌, ◌<◌, nat_eq, Bool, true, false, Bool-cases, not, if◌then◌else◌, List,
  [], ◌∷◌, Option, none, some, Option-cases, inl, inr, arith, ap,
}
use text.Mathlib.TextEquality.{eq_iff}
use kube_actions.Prelude.Effect.{pure, Ensures, Ensures-bind, Ensures-mono, Ensures-weaken, Post}
use kube_actions.Prelude.Outcome.{Outcome, ok, err, panic}
use kube_actions.Operator.Api.Meta.{ObjectKey}
use kube_actions.Operator.Api.Runner.{ActionsRunner}
use kube_actions.Operator.Token.{Error}
use kube_actions.Operator.Dot.{DotFiles}
use kube_actions.Operator.Github.{GithubEnvironment}
use kube_actions.Operator.Wire.Line
use kube_actions.Operator.Wire.Line.{Ports, Line, Wire}
use kube_actions.Operator.Wire.Line.Setup
use kube_actions.Operator.Wire.Line.Setup.{valid, close}
use kube_actions.Operator.Wire.Collection.{
  same_key, load, unregistered, Collection, Call, at_pointer, on_wire, with_wire, tried,
  destroy_wire, valid_or_destroyed, fresh_wire, new_wire,
}

pub same_key_refl : (k : ObjectKey) → same_key k k ≡ true
unfolding same_key
same_key_refl k = ground (arith, eq_iff k.namespace k.namespace, eq_iff k.name k.name)

pub load-unregistered :
    (registry : List (ObjectKey × ℕ)) (key k : ObjectKey)
    → load (unregistered registry key) k ≡ (if same_key key k then none else load registry k)
unfolding load unregistered same_key
load-unregistered [] key k = ground arith
load-unregistered ((j, p) ∷ registry) key k = ground (
  arith,
  load-unregistered registry key k,
  eq_iff j.namespace key.namespace,
  eq_iff j.name key.name,
  eq_iff j.namespace k.namespace,
  eq_iff j.name k.name,
  eq_iff key.namespace k.namespace,
  eq_iff key.name k.name,
)

module _ {N : Type 0} (ports : Ports N) (environment : GithubEnvironment)
    (registry : List (ObjectKey × ℕ)) (wires : ℕ → Wire ports) (made : ℕ) (own : Option ℕ) where
  -- The registry, and the wires that are made before and are not behind a pointer, stay what they are.
  abbrev pub Same : Collection ports environment → Type 0
  Same d =
      (d.registry ≡ registry)
      × (made ≤ d.made)
      × ((q : ℕ) → q < made → own ≢ some q → d.wire q ≡ wires q)

  -- A pointer that may be worked on: the own one, or one that is made later.
  abbrev pub Ours : ℕ → Type 0
  Ours p = (q : ℕ) → q < made → own ≢ some q → nat_eq p q ≡ false

  own-Ours : (p : ℕ) → own ≡ some p → Ours p
  own-Ours p e q small other = elim (Bool-cases (nat_eq p q)) [
    | inl same ↦ absurd (ground (arith, e, other, same))
    | inr apart ↦ apart
  ]

  pub later-Ours : (p : ℕ) → made ≤ p → Ours p
  later-Ours p late q small other = ground (arith, late, small)

  pub with_wire-Same :
      (p : ℕ)
      → Ours p
      → (d : Collection ports environment) (s : Line ports) → Same d
      → Same (with_wire ports environment p d s)
  unfolding at_pointer
  with_wire-Same p ours d s (r, le, k) =
      (r, le, λ q small other. rw (ours q small other) (k q small other))

  on_wire-Same :
      {A : Type 0} (p : ℕ)
      → Ours p
      → (m : Line.Call ports A) → Ensures Same (on_wire ports environment p m) (λ _. Same) Same
  unfolding on_wire
  on_wire-Same {A} p ours m = record {
    run = λ d same. by_outcome d same (m (record { wire = d.wire p; shared = d.shared }));
  }
    where
      by_outcome :
          (d : Collection ports environment)
          → Same d
          → (o : Outcome Error A × Line ports)
          → Post {E = Error} {A = A} (λ _. Same) Same (o.0, with_wire ports environment p d o.1)
      by_outcome d same (ok a, s) = with_wire-Same p ours d s same
      by_outcome d same (err e, s) = with_wire-Same p ours d s same
      by_outcome d same (panic, s) = with_wire-Same p ours d s same

  tried-Same :
      {call : Call ports environment (Unit {0})}
      → Ensures Same call (λ _. Same) Same
      → Ensures Same (tried ports environment call) (λ _. Same) Same
  unfolding tried
  tried-Same {call} kept = record { run = λ d same. by_outcome (call d) (kept.run d same) }
    where
      by_outcome :
          (o : Outcome Error (Unit {0}) × Collection ports environment)
          → Post {E = Error} {A = Unit {0}} (λ _. Same) Same o
          → Post {E = Error} {A = Unit {0}}
              (λ _. Same)
              Same
              (elim o.0 [ ok a ↦ (ok tt, o.1) | err e ↦ (ok tt, o.1) | panic ↦ (panic, o.1) ])
      by_outcome (ok a, d) same = same
      by_outcome (err e, d) same = same
      by_outcome (panic, d) same = same

  pub destroy_wire-Same :
      (p : ℕ) → own ≡ some p → Ensures Same (destroy_wire ports environment p) (λ _. Same) Same
  unfolding destroy_wire
  destroy_wire-Same p e =
      Ensures-bind {A = Unit {0}} (tried-Same (on_wire-Same p (own-Ours p e) (close ports)))
        λ _. on_wire-Same p (own-Ours p e) (Setup.destroy ports environment)

  -- The wire behind a pointer is valid.
  abbrev pub Good : ℕ → Collection ports environment → Type 0
  Good p d = valid ports (d.wire p) ≡ true

  -- What `GetWire` finds: the own pointer, to a valid wire, or none.
  abbrev pub Got : Option ℕ → Collection ports environment → Type 0
  Got none d = Same d
  Got (some p) d = Same d × (own ≡ some p) × Good p d

  pub valid_or_destroyed-Got :
      (p : ℕ) → own ≡ some p → Ensures Same (valid_or_destroyed ports environment p) Got Same
  unfolding valid_or_destroyed
  valid_or_destroyed-Got p e = record {
    run = λ d same. by_test d same (valid ports (d.wire p)) refl;
  }
    where
      by_test :
          (d : Collection ports environment)
          → Same d
          → (b : Bool) → valid ports (d.wire p) ≡ b
          → Post {E = Error} {A = Option ℕ} Got Same (
              if b
              then (ok (some p), d)
              else (kube_actions.Prelude.Effect.◌>>◌
                    (tried ports environment (destroy_wire ports environment p))
                    (pure none))
                  d)
      by_test d same true good = (same, e, good)
      by_test d same false bad =
          (Ensures-bind {A = Unit {0}} (tried-Same (destroy_wire-Same p e))
              λ _. record { run = λ d same. same }).run
            d same

  -- A pointer that is made later, to a wire that is valid.
  abbrev pub Late : ℕ → Collection ports environment → Type 0
  Late p d = Same d × (made ≤ p) × Good p d

  pub new_wire-Late :
      (runner : ActionsRunner) (files : Option DotFiles)
      → Ensures Same (new_wire ports environment runner files) Late Same
  unfolding new_wire at_pointer valid
  new_wire-Late runner files = record {
    run = λ d same. (
      with_made d same,
      same.1,
      (let e : nat_eq d.made d.made ≡ true = ground arith in rw e refl),
    );
  }
    where
      with_made :
          (d : Collection ports environment)
          → Same d
          → Same (record d {
            wire =
                at_pointer ports environment d.made
                  (fresh_wire ports environment runner files)
                  d.wire;
            made = suc d.made;
          })
      with_made d (r, le, k) = (
        r,
        omega (arith, le),
        λ q small other. rw (later-Ours d.made le q small other) (k q small other),
      )
