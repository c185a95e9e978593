-- ===== src/Detection/Sources.antt =====
-- services/detection.py: `_resolve_source`, the registry of sources as the guard of the intake.
use fireviewer_backend.Detection.Request.{DetectionRequest, Intake}
use fireviewer_backend.Enums.{ActorType}
use fireviewer_backend.Enums.Sources.{
  SourceTrust, same_source_type, same_trust, source_type_value, trust_value,
}
use fireviewer_backend.Errors.{Failure, conflict, forbidden, source_unauthorized}
use fireviewer_backend.Incident.Rows.{Registry, Source, source_snapshot}
use fireviewer_backend.Ledger.{Audit, record_audit}
use fireviewer_backend.Platform.{Platform, Value, dict, end, object, sha256_text, text}
use fireviewer_backend.Prelude.{
  Bool, Option, String, [], false, if◌then◌else◌, is_some, none, not, select, some, str_eq, true, ℕ,
  ◌&&◌, ◌||◌, ◌∷◌,
}
use fireviewer_backend.Session.{
  Tx, commit, get, lift, pure, put, raise, scalar_one_or_none, ◌>>=◌, ◌>>◌,
}

abbrev pub has_source_key : String → Source → Bool
has_source_key key s = str_eq s.source_key key

unfoldable pub new_source : ℕ → DetectionRequest → Source
new_source key p = record {
  id = key;
  source_key = p.source_id;
  source_type = p.source_type;
  trust = SourceTrust.unverified;
  display_name = none;
  public_display_name = none;
  public_license = none;
  public_reference_url = none;
  public_transformations = [];
  credential_hash = none;
  enabled = true;
}

abbrev pub is_unverified : SourceTrust → Bool
is_unverified trust = same_trust trust SourceTrust.unverified

module _ (P : Platform) (p : DetectionRequest) (n : Intake) where
  -- An audit whose target is a source, without snapshots before.
  abbrev source_audit : String → String → String → Option Value → Value → Audit
  source_audit action target_id reason after payload = record {
    action = action;
    target_type = "source";
    target_id = target_id;
    reason = reason;
    trace_id = n.trace_id;
    before = none;
    after = after;
    payload = payload;
  }

  abbrev no_payload : Value
  no_payload = dict end

  abbrev add_source_audit : Audit → Registry → Registry
  add_source_audit a s = record s {
    ledger = record_audit P ActorType.public_source p.source_id a s.ledger;
  }

  -- A refusal commits its audit before it raises.
  unfoldable pub refuse_source : Audit → Failure → Tx Registry Source
  refuse_source a e = do s ← get; put (add_source_audit a s); commit; raise e

  -- `credential_required` and `credential_valid`.
  unfoldable pub credential_required : Source → Bool
  credential_required s = is_some s.credential_hash || not (is_unverified s.trust)

  abbrev pub matches_token : Option String → Option String → Bool
  matches_token (some token) (some hash) = str_eq hash (sha256_text P token)
  matches_token _ _ = false

  unfoldable pub credential_valid : Source → Bool
  credential_valid s = matches_token n.source_token s.credential_hash

  abbrev pub unknown_source : Tx Registry Source
  unknown_source =
      if is_unverified p.source_trust
      then (do
        s ← get
        let source = new_source n.keys.source_key p
        put (record s {
          sources = source ∷ s.sources;
          ledger =
              record_audit P ActorType.system "incident-service"
                (source_audit "source.discovered" source.source_key
                  "First observation received from an unverified source."
                  (some (source_snapshot source)) no_payload)
                s.ledger;
        })
        pure source)
      else refuse_source
          (source_audit "source.trust_claim.rejected" p.source_id
            "Unknown sources cannot self-assert a trusted classification." none
            (object (("claimed_trust", text (trust_value p.source_trust)) ∷ [])))
          (forbidden "Unknown sources must use trust='unverified'.")

  abbrev pub accepted_source : Source → Tx Registry Source
  accepted_source source = if same_trust source.trust p.source_trust then pure source else (do
    s ← get
    put (
        add_source_audit
          (source_audit "source.trust_claim.ignored" source.source_key
            "Matching uses the server-side source registry, not a submitted trust claim." none
            (object (
              ("registered_trust", text (trust_value source.trust))
              ∷ ("submitted_trust", text (trust_value p.source_trust))
              ∷ [])))
          s)
    pure source)

  -- The tests of a known source, in their order.
  unfoldable pub known_source : Source → Tx Registry Source
  unfolding refuse_source credential_required credential_valid
  known_source source =
      if not (same_source_type source.source_type p.source_type)
      then refuse_source
          (source_audit "source.type_mismatch.rejected" source.source_key
            "The submitted source type differs from the registered source type." none
            (object (
              ("registered_type", text (source_type_value source.source_type))
              ∷ ("submitted_type", text (source_type_value p.source_type))
              ∷ [])))
          (conflict "source_type_mismatch"
            "The submitted source type does not match the source registry.")
      else if not source.enabled
      then refuse_source
          (source_audit "source.disabled.rejected" source.source_key
            "Observation received from a disabled source." none no_payload)
          (forbidden "This source is disabled.")
      else if credential_required source && not (credential_valid source)
      then refuse_source
          (source_audit "source.authentication.rejected" source.source_key
            "Missing or invalid source ingest credential." none no_payload)
          source_unauthorized
      else accepted_source source

  abbrev pub on_source : Option Source → Tx Registry Source
  on_source none = unknown_source
  on_source (some source) = known_source source

  unfoldable pub resolve_source : Tx Registry Source
  unfolding known_source
  resolve_source = do
    s ← get
    found ← lift (scalar_one_or_none (select (has_source_key p.source_id) s.sources))
    on_source found
