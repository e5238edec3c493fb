-- ===== src/Operator/Wire/Line/Handed.antt =====
-- wire/wire.go: which message makes the listener hand over a job request.
use kube_actions.Prelude.{refl, ℕ}
use kube_actions.Prelude.Result.{Result}
use kube_actions.Prelude.Outcome.{Outcome}
use kube_actions.Operator.Wire.Line.{Ports, Line}
use kube_actions.Operator.Wire.Line.Judged.{Allowed, Judged, carried}

module _ {N : Type 0} (ports : Ports N) where
  open ports use {azure, gojq}

  -- An event more changes nothing of it.
  counted :
      (n : ℕ) (s : Line ports)
      → Allowed ports s
      → Allowed ports (record s { shared = record (s.shared) { notified = n } })
  counted n s a = record {
    message = a.message;
    job = a.job;
    received = carried ports refl a.received;
    asks = a.asks;
    permits = record {
      cache = a.permits.cache;
      cache' = a.permits.cache';
      judged = a.permits.judged;
      kept = a.permits.kept;
    };
    sent = a.sent;
  }
