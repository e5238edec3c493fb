-- ===== src/Operator/Wire/Collection/Removed.antt =====
-- wire/collection.go: what `TryDestroy` leaves.
use kube_actions.Prelude.{◌≡◌, refl, ◌∙◌, ap, ℕ, Option, none, some, arith}
use kube_actions.Prelude.Effect.{Post}
use kube_actions.Prelude.Outcome.{Outcome, ok, err, panic}
use kube_actions.Operator.Api.Meta.{ObjectKey}
use kube_actions.Operator.Token.{Error}
use kube_actions.Operator.Github.{GithubEnvironment}
use kube_actions.Operator.Wire.Line.{Ports}
use kube_actions.Operator.Wire.Collection.{
  load, unregistered, Collection, destroy_wire, try_destroy,
}
use kube_actions.Operator.Wire.Collection.Registered.{
  same_key_refl, load-unregistered, Same, destroy_wire-Same,
}
use kube_actions.Operator.Wire.Collection.Served.{Untouched, Others}

module _ {N : Type 0} (ports : Ports N) (environment : GithubEnvironment) (key : ObjectKey)
    (c : Collection ports environment) where
  -- Nothing is registered under the key, and all else is as it was.
  abbrev pub Removed : Collection ports environment → Type 0
  Removed d =
      (load d.registry key ≡ none)
      × Others ports environment key c d
      × Untouched ports environment key c d

  abbrev S : Option ℕ → Collection ports environment → Type 0
  S = Same ports environment (unregistered c.registry key) c.wire c.made

  of_same : (d : Collection ports environment) → S (load c.registry key) d → Removed d
  of_same d (r, le, k) = (
    ap (λ l. load l key) r ∙ rw (load-unregistered c.registry key key, same_key_refl key) refl,
    (λ j other. ap (λ l. load l j) r ∙ rw (load-unregistered c.registry key j, other) refl),
    k,
  )

  of_outcome :
      (o : Outcome Error (Unit {0}) × Collection ports environment)
      → Post {E = Error} {A = Unit {0}} (λ _. S (load c.registry key)) (S (load c.registry key)) o
      → Removed o.1
  of_outcome (ok a, d) same = of_same d same
  of_outcome (err e, d) same = of_same d same
  of_outcome (panic, d) same = of_same d same

  -- Whatever `TryDestroy` ends in: no wire is registered under the key any more, every other key leads
  -- where it did, and no wire is changed but the one that was registered under the key.
  pub try_destroy-Removed : Removed (try_destroy ports environment key c).1
  unfolding try_destroy
  try_destroy-Removed = by_pointer (load c.registry key) refl
    where
      by_pointer :
          (o : Option ℕ)
          → load c.registry key ≡ o
          → (let ended : Outcome Error (Unit {0}) × Collection ports environment = elim o [
            | none ↦ (ok tt, c)
            | some p ↦
                destroy_wire ports environment p
                  (record c { registry = unregistered c.registry key })
          ] in
              Removed ended.1)
      by_pointer none e = (e, (λ j other. refl), λ q small other. refl)
      by_pointer (some p) e = of_outcome _ (
          (destroy_wire-Same ports environment (unregistered c.registry key) c.wire c.made
              (load c.registry key) p e).run
            (record c { registry = unregistered c.registry key })
            (refl, omega arith, λ q small other. refl))
