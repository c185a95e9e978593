-- ===== src/Detection/Guard.antt =====
-- services/detection.py: what `_resolve_source` accepts, and what it leaves of the tables.
-- A known source passes the three tests; an unknown one makes no claim.
use fireviewer_backend.Detection.Request.{DetectionRequest, Intake}
use fireviewer_backend.Detection.Sources.{
  accepted_source, credential_required, credential_valid, has_source_key, is_unverified,
  known_source, matches_token, new_source, on_source, refuse_source, resolve_source, unknown_source,
}
use fireviewer_backend.Enums.Sources.{same_source_type, same_trust}
use fireviewer_backend.Evidence.Select.Grouping.{keys}
use fireviewer_backend.Incident.Create.{Keys}
use fireviewer_backend.Incident.Rows.{Registry, Source}
use fireviewer_backend.Incident.Sound.{Sound}
use fireviewer_backend.Incident.Sound.Ready.{FreshKeys}
use fireviewer_backend.Platform.{Platform, sha256_text}
use fireviewer_backend.Prelude.{
  Option, String, arith, false, if_cases, none, not, refl, select, some, str_eq, subst, true, ◌&&◌,
  ◌≡◌,
}
use fireviewer_backend.Session.{
  Outcome, Result, Tx, err, lift, ok, raised, request, returned, scalar_one_or_none, ◌>>=◌,
}

pub data IsAcceptedSource (P : Platform) (p : DetectionRequest) (n : Intake) (s : Registry)
    (source : Source) : Type 0 where
  registered :
      scalar_one_or_none (select (has_source_key p.source_id) s.sources) ≡ ok (some source)
      → same_source_type source.source_type p.source_type ≡ true
      → source.enabled ≡ true
      → (credential_required P p n source && not (credential_valid P p n source)) ≡ false
      → IsAcceptedSource P p n s source
  discovered :
      scalar_one_or_none (select (has_source_key p.source_id) s.sources) ≡ ok none
      → is_unverified p.source_trust ≡ true
      → source ≡ new_source n.keys.source_key p
      → IsAcceptedSource P p n s source

-- The source is in the registry, enabled and of the type that was submitted, and the token has the
-- digest that the registry holds.
pub record IsAuthenticated (P : Platform) (p : DetectionRequest) (n : Intake) (s : Registry)
    (source : Source) : Type 0 where
  pub known : scalar_one_or_none (select (has_source_key p.source_id) s.sources) ≡ ok (some source)
  pub typed : same_source_type source.source_type p.source_type ≡ true
  pub enabled : source.enabled ≡ true
  pub token : String
  pub hash : String
  pub sent : n.source_token ≡ some token
  pub held : source.credential_hash ≡ some hash
  pub matching : str_eq hash (sha256_text P token) ≡ true

matching_token :
    (P : Platform) (p : DetectionRequest) (n : Intake) (token hash : Option String)
    → matches_token P p n token hash ≡ true
    → (t h : String) × (token ≡ some t) × (hash ≡ some h) × (str_eq h (sha256_text P t) ≡ true)
matching_token P p n (some t) (some h) e = (t, h, refl, refl, e)
matching_token P p n (some t) none e = cc
matching_token P p n none hash e = cc

authenticated :
    (P : Platform) (p : DetectionRequest) (n : Intake) (s : Registry) (source : Source)
    → is_unverified source.trust ≡ false
    → IsAcceptedSource P p n s source
    → IsAuthenticated P p n s source
unfolding credential_required credential_valid new_source
authenticated P p n s source trusted (registered found type on credential) =
    let valid : credential_valid P p n source ≡ true = ground (arith, trusted, credential) in
    let (t, h, sent, held, matching) =
      matching_token P p n n.source_token source.credential_hash valid in
    record {
      known = found;
      typed = type;
      enabled = on;
      token = t;
      hash = h;
      sent = sent;
      held = held;
      matching = matching;
    }
authenticated P p n s source trusted (discovered found plain new) = cc (trusted, new)

-- A property of every store that an outcome leaves.
abbrev pub Kept : {S A : Type 0} → (S → Type 0) → Outcome S A → Type 0
Kept Q (returned a d w) = Q d × Q w
Kept Q (raised e d) = Q d

-- Sound tables, in which the keys of the request are new.
abbrev pub Ready : Keys → Registry → Type 0
Ready keys s = FreshKeys keys s × Sound s

module _ (P : Platform) (p : DetectionRequest) (n : Intake) (s : Registry) where
  -- An outcome that returns, returns a source with the property.
  abbrev Returns : (Source → Type 0) → Outcome Registry Source → Type 0
  Returns Q (returned a d w) = Q a
  Returns Q (raised e d) = Unit {0}

  accepted_source-Returns :
      (source : Source)
      → (Q : Source → Type 0) → Q source
      → Returns Q (accepted_source P p n source s s)
  accepted_source-Returns source Q q =
      if_cases (λ (m : Tx Registry Source). Returns Q (m s s))
        (same_trust source.trust p.source_trust) (λ _. q) (λ _. q)

  known_source-Returns :
      (source : Source)
      → scalar_one_or_none (select (has_source_key p.source_id) s.sources) ≡ ok (some source)
      → Returns (IsAcceptedSource P p n s) (known_source P p n source s s)
  unfolding known_source refuse_source
  known_source-Returns source found =
      let R = λ (m : Tx Registry Source). Returns (IsAcceptedSource P p n s) (m s s) in
      if_cases R (not (same_source_type source.source_type p.source_type)) (λ _. tt)
        (λ typed.
          if_cases R (not source.enabled) (λ _. tt)
            (λ enabled.
              if_cases R (credential_required P p n source && not (credential_valid P p n source))
                (λ _. tt)
                (λ credential.
                  accepted_source-Returns source (IsAcceptedSource P p n s) (
                    registered found (ground (arith, typed)) (ground (arith, enabled))
                      credential))))

  unknown_source-Returns :
      scalar_one_or_none (select (has_source_key p.source_id) s.sources) ≡ ok none
      → Returns (IsAcceptedSource P p n s) (unknown_source P p n s s)
  unfolding refuse_source
  unknown_source-Returns found =
      if_cases (λ (m : Tx Registry Source). Returns (IsAcceptedSource P p n s) (m s s))
        (is_unverified p.source_trust) (λ plain. discovered found plain refl) (λ _. tt)

  resolved-Returns :
      (r : Result (Option Source))
      → scalar_one_or_none (select (has_source_key p.source_id) s.sources) ≡ r
      → Returns (IsAcceptedSource P p n s) ((lift r >>= on_source P p n) s s)
  resolved-Returns (err e) found = tt
  resolved-Returns (ok none) found = unknown_source-Returns found
  resolved-Returns (ok (some source)) found = known_source-Returns source found

  -- A source that the intake accepts is one of the registry that is enabled, has the submitted type and
  -- brings its credential where one is required, or a new one for which no trust is claimed.
  pub resolve_source-IsAcceptedSource :
      (source : Source) (d w : Registry)
      → request (resolve_source P p n) s ≡ returned source d w
      → IsAcceptedSource P p n s source
  unfolding resolve_source
  resolve_source-IsAcceptedSource source d w h =
      subst (Returns (IsAcceptedSource P p n s)) h (resolved-Returns _ refl)

  -- A source of more than unverified trust is accepted only if the registry holds it, enabled and of
  -- the submitted type, and the request brings the token with its registered digest.
  pub resolve_source-IsAuthenticated :
      (source : Source) (d w : Registry)
      → is_unverified source.trust ≡ false
      → request (resolve_source P p n) s ≡ returned source d w
      → IsAuthenticated P p n s source
  resolve_source-IsAuthenticated source d w trusted h =
      authenticated P p n s source trusted (resolve_source-IsAcceptedSource source d w h)

  -- No branch touches the incidents, the episodes or the counters.
  module _ (ready : Ready n.keys s) where
    abbrev Q : Registry → Type 0
    Q = Ready n.keys

    known_source-Kept : (source : Source) → Kept Q (known_source P p n source s s)
    unfolding known_source refuse_source
    known_source-Kept source =
        let R = λ (m : Tx Registry Source). Kept Q (m s s) in
        if_cases R (not (same_source_type source.source_type p.source_type)) (λ _. ready)
          (λ _.
            if_cases R (not source.enabled) (λ _. ready)
              (λ _.
                if_cases R (credential_required P p n source && not (credential_valid P p n source))
                  (λ _. ready)
                  (λ _.
                    if_cases R (same_trust source.trust p.source_trust) (λ _. (ready, ready))
                      (λ _. (ready, ready)))))

    resolved-Kept : (r : Result (Option Source)) → Kept Q ((lift r >>= on_source P p n) s s)
    unfolding refuse_source
    resolved-Kept (err e) = ready
    resolved-Kept (ok none) =
        if_cases (λ (m : Tx Registry Source). Kept Q (m s s)) (is_unverified p.source_trust)
          (λ _. (ready, ready)) (λ _. ready)
    resolved-Kept (ok (some source)) = known_source-Kept source

    pub resolve_source-Kept : Kept Q (request (resolve_source P p n) s)
    unfolding resolve_source
    resolve_source-Kept = resolved-Kept _
