-- ===== src/Detection/Place.antt =====
-- services/detection.py: `process_detection` from the decision of the match to the incident and the
-- episode of the observation, with their audits.
use fireviewer_backend.Detection.Request.{DetectionRequest, Intake}
use fireviewer_backend.Doubles.{Doubles, Settings}
use fireviewer_backend.Enums.{ActorType, IncidentStatus, candidate, closed, extinguished}
use fireviewer_backend.Enums.Sources.{MatchDecision}
use fireviewer_backend.Errors.{Failure, conflict}
use fireviewer_backend.Incident.Create.{
  NewIncident, Reactivated, create_incident_and_episode, create_reactivation_episode,
}
use fireviewer_backend.Incident.Lifecycle.{has_episode_key, has_incident_key, is_current_of}
use fireviewer_backend.Incident.Rows.{
  Episode, IncidentSeries, Registry, episode_snapshot, incident_snapshot,
}
use fireviewer_backend.Ledger.{Ledger, record_audit}
use fireviewer_backend.Matching.Score.{Candidate, ScoredCandidate}
use fireviewer_backend.Platform.{Platform, Value, dict, end, object, text}
use fireviewer_backend.Prelude.{List, Option, String, [], none, select, some, str_append, ◌∷◌}
use fireviewer_backend.Reviews.Request.{name_of}
use fireviewer_backend.Session.{Result, err, ok, scalar_one, ◌then_read◌}

abbrev pub service_id : String
service_id = "incident-service"

-- `attached_incident` with `attached_episode`, `proposed_incident` with `proposed_episode`, and the
-- tables.
pub record Placement : Type 0 where
  pub attached : Option (IncidentSeries × Episode)
  pub proposed : Option (IncidentSeries × Episode)
  pub registry : Registry

abbrev pub candidate_changed : Failure
candidate_changed =
    conflict "candidate_changed" "The proposed incident changed during matching; retry the request."

-- The identifier of an episode as the target of an audit.
abbrev pub observed_target : IncidentSeries → Episode → String
observed_target incident episode = str_append incident.fire_id (str_append "/" episode.episode_id)

-- `session.get`: the row with the key, or none, which is an error here.
abbrev pub first_row : {A : Type 0} → List A → Option A
first_row [] = none
first_row (a ∷ rest) = some a

abbrev pub got : {A : Type 0} → Option A → Result A
got none = err candidate_changed
got (some a) = ok a

module _ (P : Platform) (F : Doubles) (settings : Settings) (p : DetectionRequest)
    (n : Intake) where
  abbrev system_audit :
      String → String → String → String → Option Value → Value → Value → Ledger → Ledger
  system_audit action target_type target_id reason before after payload l =
      record_audit P ActorType.system service_id
        (record {
          action = action;
          target_type = target_type;
          target_id = target_id;
          reason = reason;
          trace_id = n.trace_id;
          before = before;
          after = some after;
          payload = payload;
        })
        l

  abbrev pub detected_incident : NewIncident
  detected_incident = record {
    territory_code = p.territory_code;
    longitude = p.longitude;
    latitude = p.latitude;
    uncertainty_m = p.horizontal_uncertainty_m;
    canonical_name = name_of p.canonical_name p.toponyms;
    observed_at = p.observed_at;
    policy_id = settings.matching_policy_id;
    initial_status = candidate;
  }

  abbrev created_audits : IncidentSeries → Episode → Ledger → Ledger
  created_audits incident episode l =
      system_audit "episode.created" "episode" (observed_target incident episode)
        "A new incident series starts with its first reviewable episode." none
        (episode_snapshot episode) (object (("fire_id", text incident.fire_id) ∷ []))
        (system_audit "incident.created" "incident_series" incident.fire_id
          "No reliable existing candidate matched the observation." none
          (incident_snapshot incident) (object (("episode_id", text episode.episode_id) ∷ [])) l)

  unfoldable pub create_placement : Registry → Placement
  create_placement s =
      let ((incident, episode), s') = create_incident_and_episode F n.keys detected_incident s in
      record {
        attached = some (incident, episode);
        proposed = none;
        registry = record s' { ledger = created_audits incident episode s'.ledger };
      }

  abbrev reactivated_audits : IncidentSeries → Episode → Reactivated → Ledger → Ledger
  reactivated_audits incident current r l =
      system_audit "episode.reactivation.created" "episode" (observed_target r.incident r.episode)
        "A strong match arrived after the previous episode ended." none (episode_snapshot r.episode)
        (dict end)
        (system_audit "incident.reactivation.updated" "incident_series" r.incident.fire_id
          "A strong match re-opened the incident for review." (some (incident_snapshot incident))
          (incident_snapshot r.incident) (object (("episode_id", text r.episode.episode_id) ∷ []))
          (system_audit "episode.reactivation.previous_closed" "episode"
            (observed_target r.incident r.previous)
            "A strong match arrived after the previous episode ended."
            (some (episode_snapshot current)) (episode_snapshot r.previous)
            (object (("next_episode_id", text r.episode.episode_id) ∷ [])) l))

  abbrev reopened : IncidentSeries → Episode → Registry → Placement
  reopened incident current s =
      let (r, s') =
        create_reactivation_episode n.keys incident current p.observed_at
          settings.matching_policy_id s in
      record {
        attached = some (r.incident, r.episode);
        proposed = none;
        registry = record s' { ledger = reactivated_audits incident current r s'.ledger };
      }

  abbrev pub attached_here : IncidentSeries → Episode → Registry → Placement
  attached_here incident current s = record {
    attached = some (incident, current);
    proposed = none;
    registry = s;
  }

  -- An ended episode is reactivated, any other is taken as it is.
  unfoldable pub attach_placement : IncidentStatus → IncidentSeries → Episode → Registry → Placement
  attach_placement extinguished incident current s = reopened incident current s
  attach_placement closed incident current s = reopened incident current s
  attach_placement _ incident current s = attached_here incident current s

  unfoldable pub place_proposed :
      MatchDecision → IncidentSeries → Episode → Registry → Result Placement
  unfolding attach_placement
  place_proposed MatchDecision.attach incident episode s =
      scalar_one (select (is_current_of incident.id) s.episodes)
      then_read (λ current. ok (attach_placement current.status incident current s))
  place_proposed _ incident episode s =
      ok (record { attached = none; proposed = some (incident, episode); registry = s })

  abbrev pub place_candidate : MatchDecision → Candidate → Registry → Result Placement
  place_candidate decision c s =
      got (first_row (select (has_incident_key c.incident_db_id) s.incidents))
      then_read (λ incident.
          got (first_row (select (has_episode_key c.episode_db_id) s.episodes))
          then_read (λ episode. place_proposed decision incident episode s))

  unfoldable pub place : MatchDecision → Option ScoredCandidate → Registry → Result Placement
  unfolding create_placement place_proposed
  place MatchDecision.create best s = ok (create_placement s)
  place _ none s = ok (record { attached = none; proposed = none; registry = s })
  place decision (some best) s = place_candidate decision best.candidate s
