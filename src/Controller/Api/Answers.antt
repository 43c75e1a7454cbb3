-- ===== src/Controller/Api/Answers.antt =====
-- keck-controller/src/api/mod.rs: what a posted report is answered and does.
use keck.Base.{ℕ, ◌≡◌, ◌↔◌, refl, String, string_eq, true, Option, arith, if◌then◌else◌}
use keck.Base.Results.{Result, is_ok, ok, err}
use keck.Base.Words.{add_u64}
use keck.Base.Maps.{upsert}
use keck.Controller.Aggregator.Types.{AgentReport}
use keck.Controller.Aggregator.Ingest.{ingest}
use keck.Controller.Api.{
  ServerState, StatusCode, Reason, check_auth, validate_report, handle_report, answer, accept,
}
use keck.Controller.Api.Auth.{IsAuthorized, check_auth-IsAuthorized}
use keck.Controller.Api.Validation.{IsAcceptable, validate_report_iff}

module _ {ℓ} {F : Type ℓ} (now later wall : ℕ) (r : AgentReport F) (s : ServerState F) where
  -- The answer to a request by what its checks found.
  answer_iff :
      (c : Result StatusCode (Unit {0})) (d : Result Reason (Unit {0}))
      → validate_report r ≡ d
      → (is_ok (answer c now later wall r s).1 ≡ true) ↔ ((is_ok c ≡ true) × (is_ok d ≡ true))
  answer_iff (err _) d e = (λ h. (h, ground (arith, h)), λ h. h.0)
  answer_iff (ok _) (err why) e = rw e (λ h. (refl, h), λ h. h.1)
  answer_iff (ok _) (ok _) e = rw e (λ h. (refl, refl), λ _. refl)

  answer-state :
      (c : Result StatusCode (Unit {0})) (d : Result Reason (Unit {0}))
      → validate_report r ≡ d
      → (answer c now later wall r s).0
        ≡ (if is_ok (answer c now later wall r s).1 then accept now later wall r s else s)
  answer-state (err _) d e = refl
  answer-state (ok _) (err why) e = rw e refl
  answer-state (ok _) (ok _) e = rw e refl

  -- A report is accepted exactly if it comes with the configured key, or none is configured, and is
  -- acceptable: its node has a name, no name or uid is too long, every pod has a uid, and the node's
  -- component powers, the pods' totals and the number of pods are within bounds. An accepted report
  -- is ingested and counted for its node, any other leaves the server as it was.
  pub handle_report_iff :
      (header : Option String)
      → let (t, out) = handle_report now later wall header r s in
        ((is_ok out ≡ true) ↔ (IsAuthorized header s.api_key × IsAcceptable r))
        × (t ≡ (
            if is_ok out
            then record s {
              aggregator = ingest now later wall r s.aggregator;
              agent_report_total =
                  upsert r.node.node_name 0 (λ n. add_u64 n 1) s.agent_report_total;
            }
            else s))
  unfolding handle_report
  handle_report_iff header =
      let c = check_auth header s.api_key in
      let both = answer_iff c (validate_report r) refl in
      let key = check_auth-IsAuthorized header s.api_key in
      let form = validate_report_iff r in
      (
        (λ h. (key.0 (both.0 h).0, form.0 (both.0 h).1), λ h. both.1 (key.1 h.0, form.1 h.1)),
        answer-state c (validate_report r) refl,
      )
