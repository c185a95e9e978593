-- ===== src/Detection/Refused.antt =====
-- services/detection.py: an intake that raises leaves an audit at most.
-- The store differs in its audits alone, and in the number of identifiers drawn for them.
use fireviewer_backend.Doubles.{Doubles}
use fireviewer_backend.Incident.Rows.{Registry}
use fireviewer_backend.Platform.{Platform}
use fireviewer_backend.Prelude.{◌≡◌}
use fireviewer_backend.Session.{Outcome, raised, returned}

unfoldable pub OnlyAudited : Registry → Registry → Type 0
OnlyAudited db d =
    d ≡ record db { ledger = record db.ledger { audits = d.ledger.audits; drawn = d.ledger.drawn } }

-- The outcome returns, or it raises with a property of the durable store.
abbrev Raises : {S A : Type 0} → (S → Type 0) → Outcome S A → Type 0
Raises Q (returned a d w) = Unit {0}
Raises Q (raised e d) = Q d
