-- ===== src/Operator/Wire/Collection/Served.antt =====
-- wire/collection.go: the wire that a runner is given, and what is left when it is destroyed.
use kube_actions.Prelude.{
  ◌≡◌, ◌≢◌, refl, sym, ◌∙◌, ap, ℕ, ◌<◌, nat_eq, true, false, not, ◌∷◌, Option, none, some, arith,
}
use kube_actions.Prelude.Effect.{Ensures, Ensures-bind, Post}
use kube_actions.Prelude.Outcome.{Outcome, ok, err, panic}
use kube_actions.Operator.Api.Meta.{ObjectKey}
use kube_actions.Operator.Api.Runner.{ActionsRunner}
use kube_actions.Operator.Token.{Error}
use kube_actions.Operator.Dot.{DotFiles}
use kube_actions.Operator.Github.{GithubEnvironment}
use kube_actions.Operator.Wire.Line.{Ports, Line}
use kube_actions.Operator.Wire.Line.Setup.{valid, init_wire}
use kube_actions.Operator.Wire.Line.Valid.{init_wire-Valid}
use kube_actions.Operator.Wire.Collection.{
  same_key, load, unregistered, key_of, Collection, at_pointer, on_wire, with_wire,
  valid_or_destroyed, get_wire, store, make_wire, or_made, wire_for,
}
use kube_actions.Operator.Wire.Collection.Registered.{
  same_key_refl, load-unregistered, Same, later-Ours, with_wire-Same, Got, valid_or_destroyed-Got,
  Late, new_wire-Late,
}

module _ {N : Type 0} (ports : Ports N) (environment : GithubEnvironment) where
  -- The wires that were made in `c` and are not registered under the key are not changed in `d`.
  abbrev pub Untouched :
      ObjectKey → Collection ports environment → Collection ports environment → Type 0
  Untouched key c d = (q : ℕ) → q < c.made → load c.registry key ≢ some q → d.wire q ≡ c.wire q

  -- The other keys lead to what they did.
  abbrev pub Others :
      ObjectKey → Collection ports environment → Collection ports environment → Type 0
  Others key c d = (k : ObjectKey) → same_key key k ≡ false → load d.registry k ≡ load c.registry k

  module _ (runner : ActionsRunner) (files : Option DotFiles)
      (c : Collection ports environment) where
    abbrev own : Option ℕ
    own = load c.registry (key_of runner)

    abbrev S : Collection ports environment → Type 0
    S = Same ports environment c.registry c.wire c.made own

    -- What `WireFor` leaves with a pointer.
    abbrev Q : ℕ → Collection ports environment → Type 0
    Q p d =
        (load d.registry (key_of runner) ≡ some p)
        × (valid ports (d.wire p) ≡ true)
        × Untouched (key_of runner) c d
        × Others (key_of runner) c d

    abbrev L : ℕ → Collection ports environment → Type 0
    L = Late ports environment c.registry c.wire c.made own

    get_wire-Got :
        Ensures S
          (get_wire ports environment runner)
          (Got ports environment c.registry c.wire c.made own)
          S
    unfolding get_wire
    get_wire-Got = record {
      run = λ d same. by_pointer d same (load d.registry (key_of runner)) refl;
    }
      where
        by_pointer :
            (d : Collection ports environment)
            → S d
            → (o : Option ℕ) → load d.registry (key_of runner) ≡ o
            → Post {E = Error} {A = Option ℕ}
                (Got ports environment c.registry c.wire c.made own)
                S
                (elim o [ none ↦ (ok none, d) | some p ↦ valid_or_destroyed ports environment p d ])
        by_pointer d same none e = same
        by_pointer d same (some p) e =
            (valid_or_destroyed-Got ports environment c.registry c.wire c.made own p
                (ap (λ r. load r (key_of runner)) (sym same.0) ∙ e)).run
              d same

    init_wire-Late :
        (p : ℕ)
        → Ensures (L p) (on_wire ports environment p (init_wire ports environment)) (λ _. L p) S
    unfolding on_wire valid at_pointer
    init_wire-Late p = record {
      run = λ d late.
          by_outcome d late
            (init_wire ports environment (record { wire = d.wire p; shared = d.shared }))
            ((init_wire-Valid ports environment).run _
              (let e : (d.wire p).invalid ≡ false = ground (arith, late) in e));
    }
      where
        by_outcome :
            (d : Collection ports environment)
            → L p d
            → (o : Outcome Error (Unit {0}) × Line ports)
            → Post {E = Error} {A = Unit {0}} (λ _ s. s.wire.invalid ≡ false) (λ _. Unit) o
            → Post {E = Error} {A = Unit {0}}
                (λ _. L p)
                S
                (o.0, with_wire ports environment p d o.1)
        by_outcome d (same, late, good) (ok a, s) fine = (
          with_wire-Same ports environment c.registry c.wire c.made own p
              (later-Ours ports environment c.registry c.wire c.made own p late) d s same,
          late,
          (let e : nat_eq p p ≡ true = ground arith in rw e (ap not fine)),
        )
        by_outcome d (same, late, good) (err e, s) fine =
            with_wire-Same ports environment c.registry c.wire c.made own p
              (later-Ours ports environment c.registry c.wire c.made own p late) d s same
        by_outcome d (same, late, good) (panic, s) fine =
            with_wire-Same ports environment c.registry c.wire c.made own p
              (later-Ours ports environment c.registry c.wire c.made own p late) d s same

    store_lem :
        (p : ℕ) (d : Collection ports environment)
        → L p d
        → Q p (record d { registry = (key_of runner, p) ∷ unregistered d.registry (key_of runner) })
    unfolding load
    store_lem p d ((r, le, k), late, good) = (
      rw (same_key_refl (key_of runner)) refl,
      good,
      k,
      λ j other.
          rw (other, load-unregistered d.registry (key_of runner) j, other) (ap (λ r. load r j) r),
    )

    make_wire-Q : Ensures S (make_wire ports environment runner files) Q S
    unfolding make_wire store
    make_wire-Q =
        Ensures-bind (new_wire-Late ports environment c.registry c.wire c.made own runner files)
          λ p. Ensures-bind (init_wire-Late p) λ _. record { run = λ d late. store_lem p d late }

    or_made-Q :
        (found : Option ℕ)
        → Ensures
            (Got ports environment c.registry c.wire c.made own found)
            (or_made ports environment runner files found)
            Q
            S
    unfolding or_made
    or_made-Q none = make_wire-Q
    or_made-Q (some p) = record {
      run = λ d got.
          let (same, here, good) = got in
          (
            ap (λ r. load r (key_of runner)) same.0 ∙ here,
            good,
            (λ q small other. same.2 q small other),
            λ j other. ap (λ r. load r j) same.0,
          );
    }

    wire_for-Q : Ensures S (wire_for ports environment runner files) Q S
    unfolding wire_for
    wire_for-Q = Ensures-bind get_wire-Got or_made-Q

  -- How `WireFor` ends: with a valid wire, registered under the key, or, on an error or a panic, with
  -- the registry that it began with.
  abbrev pub Served :
      ObjectKey
      → Collection ports environment
      → Outcome Error ℕ × Collection ports environment
      → Type 0
  Served key c (ok p, d) =
      (load d.registry key ≡ some p)
      × (valid ports (d.wire p) ≡ true)
      × Untouched key c d
      × Others key c d
  Served key c (err e, d) = (d.registry ≡ c.registry) × Untouched key c d
  Served key c (panic, d) = (d.registry ≡ c.registry) × Untouched key c d

  served :
      (runner : ActionsRunner) (files : Option DotFiles) (c : Collection ports environment)
      (o : Outcome Error ℕ × Collection ports environment)
      → Post (Q runner files c) (S runner files c) o
      → Served (key_of runner) c o
  served runner files c (ok p, d) q = q
  served runner files c (err e, d) same = (same.0, same.2)
  served runner files c (panic, d) same = (same.0, same.2)

  -- Whatever the collection holds: if `WireFor` returns a wire, it is valid and registered under the key
  -- of the runner, and every other key leads where it did; if it fails, the registry is what it was.
  -- In either case no wire is changed that was made before and is not registered under that key.
  pub wire_for-Served :
      (runner : ActionsRunner) (files : Option DotFiles) (c : Collection ports environment)
      → Served (key_of runner) c (wire_for ports environment runner files c)
  wire_for-Served runner files c =
      served runner files c (wire_for ports environment runner files c)
        ((wire_for-Q runner files c).run c (refl, omega arith, λ q small other. refl))
