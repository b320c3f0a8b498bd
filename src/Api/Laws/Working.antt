-- ===== src/Api/Laws/Working.antt =====
-- internal/api/agent and CancelCheck of internal/api/public: the handlers against the invariant of the tables.
use pingachock.Store.Models.{Uuid}
use pingachock.Api.Agent.{
  no_request, to_report, PollRequest, poll_decoded, claim_reply, set_version_if_given,
  set_platform_if_given, poll, ResultSubmission, results_decoded, results, record_results,
}
use pingachock.Store.Nodes.{set_node_agent_version, touch_heartbeat, set_node_platform}
use pingachock.Api.Checks.{Codec, with_id_param, cancel}
use pingachock.Store.Triple.{Keeps}
use pingachock.Base.{
  inr, inl, is_empty_str, [], none, refl, Bool-cases, ◌∷◌, some, List, Bool, Option, String,
}
use pingachock.Api.Laws.{KeepsH-call, Keeps-other_table, KeepsH}
use pingachock.Store.Lifecycle.{IsValid}
use pingachock.Api.{malformed, decoded, Body, H}
use pingachock.Base.Int.{ℤ}
use pingachock.Store.Lifecycle.Cancel.{cancel_check-IsValid}
use pingachock.Store.Lifecycle.Complete.{complete_check_run-IsValid}
use pingachock.Store.Lifecycle.Claim.{claim_queued_runs-IsValid}

pub touch_heartbeat-Keeps : (nid : Uuid) → Keeps IsValid (touch_heartbeat nid)
unfolding touch_heartbeat
touch_heartbeat-Keeps nid = Keeps-other_table _ (λ u now d. (refl, refl))

set_node_agent_version-Keeps :
    (nid : Uuid) (v : String) → Keeps IsValid (set_node_agent_version nid v)
unfolding set_node_agent_version
set_node_agent_version-Keeps nid v = Keeps-other_table _ (λ u now d. (refl, refl))

set_node_platform-Keeps : (nid : Uuid) (p : String) → Keeps IsValid (set_node_platform nid p)
unfolding set_node_platform
set_node_platform-Keeps nid p = Keeps-other_table _ (λ u now d. (refl, refl))

module _ {B : Type 0} (nid : Uuid) (s : String) (k : H B) (h : KeepsH IsValid k) where
  set_version-KeepsH : KeepsH IsValid (set_version_if_given nid s k)
  unfolding set_version_if_given
  set_version-KeepsH = elim (Bool-cases (is_empty_str s)) [
    | inl none_given ↦ rw none_given h
    | inr given ↦ rw given (λ w v. h _ (set_node_agent_version-Keeps nid s w v))
  ]

  set_platform-KeepsH : KeepsH IsValid (set_platform_if_given nid s k)
  unfolding set_platform_if_given
  set_platform-KeepsH = elim (Bool-cases (is_empty_str s)) [
    | inl none_given ↦ rw none_given h
    | inr given ↦ rw given (λ w v. h _ (set_node_platform-Keeps nid s w v))
  ]

module _ (locked : Uuid → Bool) (limit : ℤ) (nid : Uuid) where
  claim_reply-KeepsH : KeepsH IsValid (claim_reply locked limit nid)
  unfolding claim_reply
  claim_reply-KeepsH =
      KeepsH-call IsValid _ _ _ (claim_queued_runs-IsValid locked nid limit) (λ jobs w v. v)

  poll_decoded-KeepsH : (q : PollRequest) → KeepsH IsValid (poll_decoded locked limit nid q)
  unfolding poll_decoded
  poll_decoded-KeepsH q = KeepsH-call IsValid _ _ _ (touch_heartbeat-Keeps nid) (λ _.
      set_version-KeepsH nid q.agent_version _
        (set_platform-KeepsH nid q.platform _ claim_reply-KeepsH))

  -- A poll keeps the invariant.
  pub poll-IsValid :
      (body : Option (Body PollRequest)) → KeepsH IsValid (poll locked limit nid body)
  unfolding poll
  poll-IsValid none = poll_decoded-KeepsH no_request
  poll-IsValid (some (decoded q)) = poll_decoded-KeepsH q
  poll-IsValid (some (malformed e)) = λ w v. v

record_results-KeepsH :
    (nid : Uuid) (rs : List ResultSubmission) → KeepsH IsValid (record_results nid rs)
unfolding record_results
record_results-KeepsH nid [] = λ w v. v
record_results-KeepsH nid (r ∷ rs) =
    KeepsH-call IsValid _ _ _ (complete_check_run-IsValid r.check_run_id nid (to_report r))
      (λ _. record_results-KeepsH nid rs)

-- A batch of results keeps the invariant, also where it is refused in the middle.
pub results-IsValid :
    (nid : Uuid) (body : Body (List ResultSubmission)) → KeepsH IsValid (results nid body)
unfolding results results_decoded
results-IsValid nid (decoded []) = λ w v. v
results-IsValid nid (decoded (r ∷ rs)) = record_results-KeepsH nid (r ∷ rs)
results-IsValid nid (malformed e) = λ w v. v

with_id_param-KeepsH :
    {B : Type 0} (i : Option Uuid) (msg : String) (k : Uuid → H B)
    → ((u : Uuid) → KeepsH IsValid (k u))
    → KeepsH IsValid (with_id_param i msg k)
unfolding with_id_param
with_id_param-KeepsH none msg k h = λ w v. v
with_id_param-KeepsH (some i) msg k h = h i

-- A request to cancel a check keeps the invariant.
pub cancel-IsValid :
    (codec : Codec) (aid : Uuid) (id : String) → KeepsH IsValid (cancel codec aid id)
unfolding cancel
cancel-IsValid codec aid id =
    with_id_param-KeepsH (codec.parse_uuid id) "invalid id" _
      (λ cid. KeepsH-call IsValid _ _ _ (cancel_check-IsValid aid cid) (λ _ w v. v))
