-- ===== src/Runner/Ends.antt =====
-- runner/main.go: what main does last.
use kube_actions.Prelude.{
  ◌≡◌, refl, sym, ap, subst, ◌∙◌, String, true, Option, none, some, Option-cases, ◌⊎◌, inl, inr,
}
use kube_actions.Prelude.Effect.{continue}
use kube_actions.Prelude.Outcome.{Outcome, ok, err, panic}
use kube_actions.Runner.{
  Stop, failed, blocked, Machine, Call, told, run_command, or_panic, push_metrics, runner_args,
  run_actions_runner, request_dind_termination, deferring, after_deferred, setup, report_start,
  report_end, reported_run, measured, after_setup, main,
}

module _ (machine : Machine) where
  open machine use {World, lookup_env, start, wait, push, dial, set_started, set_running}

  abbrev NotBlocked : Outcome Stop (Unit {0}) → Type 0
  NotBlocked (err blocked) = ⊥
  NotBlocked o = Unit

  told-NotBlocked :
      (f : World → Option String × World) (s : World) → NotBlocked (told machine f s).0
  unfolding told
  told-NotBlocked f s = elim (Option-cases (f s).0) [
    | inl e ↦ rw (e, told) tt
    | inr (m, e) ↦ rw (e, told) tt
  ]

  told-world : (f : World → Option String × World) (s : World) → (told machine f s).1 ≡ (f s).1
  unfolding told
  told-world f s = elim (Option-cases (f s).0) [
    | inl e ↦ rw (e, told) refl
    | inr (m, e) ↦ rw (e, told) refl
  ]

  or_panic-NotBlocked :
      (o : Outcome Stop (Unit {0}) × World) → NotBlocked o.0 → NotBlocked (or_panic machine o).0
  or_panic-NotBlocked (ok a, w) p = p
  or_panic-NotBlocked (err (failed e), w) p = tt
  or_panic-NotBlocked (err blocked, w) p = p
  or_panic-NotBlocked (panic, w) p = p

  push_metrics-NotBlocked : (s : World) → NotBlocked (push_metrics machine s).0
  unfolding push_metrics
  push_metrics-NotBlocked s = or_panic-NotBlocked (told machine push s) (told-NotBlocked push s)

  after_deferred-NotBlocked :
      (o : Outcome Stop (Unit {0})) (q : Outcome Stop (Unit {0}) × World)
      → NotBlocked o
      → NotBlocked q.0
      → NotBlocked (after_deferred machine o q).0
  after_deferred-NotBlocked o (ok a, w) p r = p
  after_deferred-NotBlocked o (err (failed e), w) p r = p
  after_deferred-NotBlocked o (err blocked, w) p r = r
  after_deferred-NotBlocked o (panic, w) p r = tt

  after_deferred-world :
      (o : Outcome Stop (Unit {0})) (q : Outcome Stop (Unit {0}) × World)
      → (after_deferred machine o q).1 ≡ q.1
  after_deferred-world o (ok a, w) = refl
  after_deferred-world o (err (failed e), w) = refl
  after_deferred-world o (err blocked, w) = refl
  after_deferred-world o (panic, w) = refl

  deferring-after :
      (d : Call machine (Unit {0})) (o : Outcome Stop (Unit {0})) (w : World)
      → NotBlocked o
      → deferring machine d (o, w) ≡ after_deferred machine o (d w)
  unfolding deferring
  deferring-after d (err blocked) w p = absurd p
  deferring-after d (ok a) w p = refl
  deferring-after d (err (failed e)) w p = refl
  deferring-after d panic w p = refl

  -- The process of the actions runner does not start.
  abbrev pub NoStart : World → Type 0
  NoStart w =
      (e : String) × ((start "/opt/actions-runner/run.sh" (runner_args machine w) w).0 ≡ some e)

  dials_last :
      (o : Outcome Stop (Unit {0}) × World)
      → NotBlocked o.0
      → (deferring machine (request_dind_termination machine true) o).1 ≡ (dial ":2378" o.1).1
  unfolding request_dind_termination
  dials_last (o, w) p =
      ap (λ r. r.1) (deferring-after (request_dind_termination machine true) o w p)
      ∙ after_deferred-world o (told machine (dial ":2378") w)
      ∙ told-world (dial ":2378") w

  run_actions_runner-NotBlocked :
      (w : World)
      → (NoStart w × ((run_actions_runner machine w).0 ≡ err blocked))
        ⊎ NotBlocked (run_actions_runner machine w).0
  unfolding run_actions_runner run_command
  run_actions_runner-NotBlocked w =
      by_start (start "/opt/actions-runner/run.sh" (runner_args machine w) w) refl
    where
      by_start :
          (o : Option String × World)
          → start "/opt/actions-runner/run.sh" (runner_args machine w) w ≡ o
          → (let ran : Outcome Stop (Unit {0}) × World = elim o.0 [
            | none ↦ told machine wait o.1
            | some e ↦ (err blocked, o.1)
          ] in
              (NoStart w × (ran.0 ≡ err blocked)) ⊎ NotBlocked ran.0)
      by_start (none, v) e = inr (told-NotBlocked wait v)
      by_start (some m, v) e = inl ((m, ap (λ r. r.0) e), refl)

  reported :
      (o : Outcome Stop (Unit {0}) × World)
      → NotBlocked o.0
      → NotBlocked (deferring machine (report_end machine) o).0
  unfolding report_end
  reported (o, w) p =
      subst (λ r. NotBlocked r.0) (sym (deferring-after (report_end machine) o w p))
        (after_deferred-NotBlocked o (report_end machine w) p (push_metrics-NotBlocked _))

  -- The process of the actions runner does not start, and the code waits forever.
  abbrev pub Stuck : Outcome Stop (Unit {0}) → Type 0
  Stuck o = ((v : World) × NoStart v) × (o ≡ err blocked)

  deferring-Stuck :
      (d : Call machine (Unit {0})) (o : Outcome Stop (Unit {0}) × World)
      → Stuck o.0
      → Stuck (deferring machine d o).0
  unfolding deferring
  deferring-Stuck d (err blocked, w) (v, e) = (v, refl)
  deferring-Stuck d (ok a, w) (v, e) = absurd (cc e)
  deferring-Stuck d (err (failed x), w) (v, e) = absurd (cc e)
  deferring-Stuck d (panic, w) (v, e) = absurd (cc e)

  reported_run-Stuck :
      (w : World) → Stuck (reported_run machine w).0 ⊎ NotBlocked (reported_run machine w).0
  unfolding reported_run
  reported_run-Stuck w = elim (run_actions_runner-NotBlocked w) [
    | inl (n, e) ↦ inl (deferring-Stuck (report_end machine) _ ((w, n), panics _ e))
    | inr p ↦
        inr (reported (or_panic machine (run_actions_runner machine w)) (or_panic-NotBlocked _ p))
  ]
    where
      panics :
          (o : Outcome Stop (Unit {0}) × World)
          → o.0 ≡ err blocked
          → (or_panic machine o).0 ≡ err blocked
      panics (err blocked, w) e = refl
      panics (ok a, w) e = absurd (cc e)
      panics (err (failed x), w) e = absurd (cc e)
      panics (panic, w) e = absurd (cc e)

  measured-Stuck : (w : World) → Stuck (measured machine w).0 ⊎ NotBlocked (measured machine w).0
  unfolding measured report_start
  measured-Stuck w =
      by_report (push_metrics machine (set_started (set_running 1 w)))
        (push_metrics-NotBlocked (set_started (set_running 1 w)))
    where
      by_report :
          (o : Outcome Stop (Unit {0}) × World)
          → NotBlocked o.0
          → Stuck (continue (λ _. reported_run machine) o).0
            ⊎ NotBlocked (continue (λ _. reported_run machine) o).0
      by_report (err blocked, w) p = absurd p
      by_report (err (failed e), w) p = inr tt
      by_report (panic, w) p = inr tt
      by_report (ok a, w) p = reported_run-Stuck w

  -- On a machine with Docker, if the four goroutines of the start succeed: the last thing that main does
  -- is to ask the Docker daemon's container to end, whatever the actions runner, the push gateway and the
  -- call itself return; or the process of the actions runner does not start, and main waits forever.
  pub main-dials :
      (s : World) (host : String)
      → lookup_env "DOCKER_HOST" s ≡ some host
      → (setup machine true s).0 ≡ ok tt
      → Stuck (main machine s).0 ⊎ ((v : World) × ((main machine s).1 ≡ (dial ":2378" v).1))
  unfolding main after_setup
  main-dials s host docker ready = rw docker (by_setup (setup machine true s) ready)
    where
      by_setup :
          (o : Outcome Stop (Unit {0}) × World)
          → o.0 ≡ ok tt
          → Stuck (after_setup machine true o).0
            ⊎ ((v : World) × ((after_setup machine true o).1 ≡ (dial ":2378" v).1))
      by_setup (ok a, w) e = elim (measured-Stuck w) [
        | inl n ↦ inl (deferring-Stuck _ (measured machine w) n)
        | inr p ↦ inr ((measured machine w).1, dials_last (measured machine w) p)
      ]
      by_setup (err x, w) e = absurd (cc e)
      by_setup (panic, w) e = absurd (cc e)
