-- ===== src/SecureBus/Condition.antt =====
-- internal/securebus/filter.go: whether a message, with its attestations, meets a condition.
pub mod Latest
pub mod Laws
use synamcps_server.Prelude.{
  ℕ, ◌+◌, String, Bool, true, false, Option, none, some, List, [], ◌∷◌, ◌&&◌, ◌||◌, not,
  if◌then◌else◌, is_empty, is_some, all, any, ltb, length, keep,
}
use synamcps_server.Prelude.Strings.{◌=ˢ◌, contains}
use synamcps_server.Prelude.Ints.{ℤ, pos, negsuc, is_nat, at_most_zero}
use synamcps_server.Prelude.Maps.{Dict, lookup, insert}
use synamcps_server.SecureBus.Document.{Document, Condition, ConditionRequire}

pub record AttestationView : Type 0 where
  pub agent_name : String
  pub key_id : String
  pub status : String

pub record MessageView : Type 0 where
  pub author_key_id : String
  pub author_name : String
  pub attestations : List AttestationView

-- the loop that fills `latest`: the last attestation of an agent stands
unfoldable pub latest_from : Dict String → List AttestationView → Dict String
latest_from latest [] = latest
latest_from latest (a ∷ atts) = latest_from (insert a.agent_name a.status latest) atts

abbrev pub has_status : String → String × String → Bool
has_status status (name, st) = st =ˢ status

-- `latest[agent]`, the empty text where the agent has none
abbrev pub status_of : Dict String → String → String
status_of latest agent = elim (lookup agent latest) [ none ↦ "" | some st ↦ st ]

abbrev pub effective_mode : Condition → String
effective_mode cond =
    if cond.mode =ˢ ""
    then if not (is_empty cond.require) || not (at_most_zero cond.min_ok) || is_some cond.any_deny
      then "on_condition"
      else "on_publish"
    else cond.mode

-- `cond.MinOk > 0 && okCount < cond.MinOk`
abbrev pub too_few : ℤ → ℕ → Bool
too_few (pos n) ok_count = ltb ok_count n
too_few (negsuc n) ok_count = false

-- the branches after the counts
unfoldable pub match_latest : Condition → String → Dict String → Bool
match_latest cond mode latest =
    if not (all (λ r. status_of latest r.agent =ˢ r.status) cond.require)
    then false
    else if too_few cond.min_ok (length (keep (has_status "ok") latest))
    then false
    else if mode =ˢ "on_publish"
    then true
    else if is_empty cond.require && is_nat cond.min_ok 0
    then true
    else true

unfoldable pub match_deny : Condition → String → Dict String → Option Bool → Bool
unfolding match_latest
match_deny cond mode latest (some true) = any (has_status "deny") latest
match_deny cond mode latest (some false) =
    if any (has_status "deny") latest then false else match_latest cond mode latest
match_deny cond mode latest none = match_latest cond mode latest

unfoldable pub match_condition : Condition → MessageView → Bool
unfolding latest_from match_deny
match_condition cond msg =
    if not (is_empty cond.authors) && not (contains cond.authors msg.author_name)
    then false
    else match_deny cond (effective_mode cond) (latest_from [] msg.attestations) cond.any_deny

abbrev pub on_publish : Condition
on_publish = record {
  authors = [];
  require = [];
  min_ok = pos 0;
  any_deny = none;
  mode = "on_publish";
}

-- `ResolveCondition`: `none` for an unknown name. `decode` is the round trip of the ad-hoc JSON
-- object through encoding/json.
unfoldable pub resolve_condition {ℓ} :
    {J : Type ℓ} → (J → Option Condition) → Document → String → Option J → Option Condition
resolve_condition decode doc name ad_hoc =
    if not (name =ˢ "")
    then lookup name doc.conditions
    else (elim ad_hoc [ none ↦ some on_publish | some raw ↦ decode raw ])
