-- ===== src/Producer/Loop.antt =====
-- What the loop of `ProducerManager._run_from` (producer/manager.py) promises.
use mathlib.Core.Path.{subst}
use prdcp.Shared.{
  ℕ, suc, String, ◌≡◌, refl, inl, inr, true, none, Option-cases, Bool-cases, List, [], ◌∷◌, ok,
  raise, text_eq, check, check_iff, not-Passes, Outcome-either, Error,
}
use prdcp.Pmp.{PmpMessage, MessageType, pmp_validate}
use prdcp.Exchange.Exec.{pure, resume-ok, ◌>>◌}
use prdcp.Producer.Model.{WorkflowStatus, agent_order, drop}
use prdcp.Producer.Checkpoint.{apply_result, mark_complete}
use prdcp.Producer.Setting.{Manager, World, Step}
use prdcp.Producer.Drafts.{error_of, response_guards, is_review, is_expected, payload_fields}
use prdcp.Producer.Messages.{validate_response}
use prdcp.Producer.Agents.{
  Overrides, Reached, returned, set_status, at_checkpoint, stops_at, fail, request_agent,
  await_response, accept, after_result, judge, run_agents,
}
use prdcp.Producer.Progress.{
  IsAgent, scout, selector, analyst, planner, reviewer, brings, accept-IsCheckpoint,
}
use prdcp.Producer.Asking.{
  IsFruitful, request_agent-Keeps, await_response-Keeps, await_response-answers,
}
use prdcp.Producer.Steps.{IsAt, same-IsCheckpoint}
use prdcp.Producer.LoopEnd.{
  IsKept, IsLoopEnd, kept, next-IsAgent, error_of-none, result-review, stops-set, resume-IsLoopEnd,
}

module _ (m : Manager) where
  -- A response that passes has the type that its agent must answer with.
  valid-is_expected :
      (q r : PmpMessage) (agent : String)
      → validate_response m q r agent ≡ none
      → is_expected agent r.message_type ≡ true
  unfolding validate_response
  valid-is_expected q r agent h = elim (Outcome-either (pmp_validate m.x.registry r)) [
    | inr (e, n) ↦ let h' = rw (n, validate_response) at h in cc
    | inl (u, y) ↦
        let h' : error_of (check (response_guards m.show q r agent)) ≡ none =
          rw (y, validate_response) at h in
        let (g1, (g2, (g3, (g4, (g5, g6))))) =
          (check_iff (response_guards m.show q r agent)).0
            (error_of-none (response_guards m.show q r agent) h') in
        (not-Passes (is_expected agent r.message_type)).0 g5
  ]

  accept-IsAt :
      {i : ℕ} {a : String} (p : IsAgent i a) (r : PmpMessage) (w : World) (u : Unit {0})
      → brings a (payload_fields r.payload) ≡ true
      → IsAt i w
      → (accept m a r w).0 ≡ ok u
      → IsAt (suc i) (accept m a r w).1
  unfolding accept
  accept-IsAt {i} {a} p r w u b here h =
      let (t, applied, done) =
        resume-ok (apply_result w.state a (payload_fields r.payload)) _ w u h in
      let c = accept-IsCheckpoint p w.state t (payload_fields r.payload) here.now b applied in
      let d =
        same-IsCheckpoint (suc i) (mark_complete t a)
          (set_status WorkflowStatus.running (mark_complete t a))
          record { completed = refl; candidates = refl; topic = refl; opinion = refl; plan = refl }
          c in
      rw (applied, accept) (record { now = d; saved = ((suc i, d), here.saved) })

  accept-IsKept :
      (a : String) (r : PmpMessage) (w : World) (e : Error)
      → IsKept w
      → (accept m a r w).0 ≡ raise e
      → IsKept (accept m a r w).1
  unfolding accept
  accept-IsKept a r w e k h =
      elim (Outcome-either (apply_result w.state a (payload_fields r.payload))) [
        | inl (t, y) ↦ let h' = rw (y, accept) at h in cc
        | inr (e2, n) ↦ rw (n, accept) k
      ]

  -- A response with the type that is expected brings the artifact, but for the reviewer's.
  brings-expected :
      {i : ℕ} {a : String} (p : IsAgent i a) (n : ℕ) (q r : PmpMessage)
      → IsFruitful m
      → m.execute n a q ≡ ok r
      → is_expected a r.message_type ≡ true
      → brings a (payload_fields r.payload) ≡ true
  brings-expected scout n q r f e h = f n _ q r e h
  brings-expected selector n q r f e h = f n _ q r e h
  brings-expected analyst n q r f e h = f n _ q r e h
  brings-expected planner n q r f e h = f n _ q r e h
  brings-expected reviewer n q r f e h = refl

  -- The only agent that may answer with a review is the last one.
  review-place :
      {i : ℕ} {a : String} (p : IsAgent i a) (t : MessageType)
      → is_expected a t ≡ true
      → is_review t ≡ true
      → i ≡ 4
  review-place scout t e h = absurd (result-review t e h)
  review-place selector t e h = absurd (result-review t e h)
  review-place analyst t e h = absurd (result-review t e h)
  review-place planner t e h = absurd (result-review t e h)
  review-place reviewer t e h = refl

  after_result-IsLoopEnd :
      (n i : ℕ) (o : Overrides) (rest : Step Reached) (w : World)
      → IsAt n w
      → IsLoopEnd o (rest w)
      → IsLoopEnd o (after_result m o i rest w)
  after_result-IsLoopEnd n i o rest w p h = elim (Bool-cases (stops_at o.stop_after i)) [
    | inl y ↦
        let c =
          same-IsCheckpoint n w.state (at_checkpoint w.state)
            record {
              completed = refl;
              candidates = refl;
              topic = refl;
              opinion = refl;
              plan = refl;
            }
            p.now in
        rw y (
          ((n, c), ((n, c), p.saved)),
          record {
            stored = (w.saved, refl);
            idle = refl;
            status = inr (refl, stops-set o.stop_after i y);
          },
        )
    | inr n2 ↦ rw n2 h
  ]

  fail-IsLoopEnd :
      (n : ℕ) (o : Overrides) (message : String) (w : World)
      → IsAt n w
      → IsLoopEnd o ((fail m message >> pure returned) w)
  unfolding fail
  fail-IsLoopEnd n o message w p =
      let c =
        same-IsCheckpoint n w.state (fail m message w).1.state
          record { completed = refl; candidates = refl; topic = refl; opinion = refl; plan = refl }
          p.now in
      (
        ((n, c), ((n, c), p.saved)),
        record { stored = (w.saved, refl); idle = refl; status = inl refl },
      )

  accepted-IsLoopEnd :
      {i : ℕ} {a : String} (p : IsAgent i a) (o : Overrides) (r : PmpMessage) (rest : Step Reached)
      (w : World)
      → brings a (payload_fields r.payload) ≡ true
      → IsAt i w
      → ((v : World) → IsAt (suc i) v → IsLoopEnd o (rest v))
      → IsLoopEnd o ((accept m a r >> after_result m o i rest) w)
  accepted-IsLoopEnd {i} {a} p o r rest w b here next = elim (Outcome-either (accept m a r w).0) [
    | inr (e, n) ↦ rw n (accept-IsKept a r w e (kept w here) n)
    | inl (u, y) ↦
        let there = accept-IsAt p r w u b here y in
        rw y (
          after_result-IsLoopEnd (suc i) i o rest (accept m a r w).1 there
            (next (accept m a r w).1 there))
  ]

  judge-IsLoopEnd :
      {i : ℕ} {a : String} (p : IsAgent i a) (o : Overrides) (n : ℕ) (q r : PmpMessage)
      (rest : Step Reached) (w : World)
      → IsFruitful m
      → m.execute n a q ≡ ok r
      → IsAt i w
      → ((v : World) → IsAt (suc i) v → IsLoopEnd o (rest v))
      → IsLoopEnd o (judge m o a i q r rest w)
  unfolding judge
  judge-IsLoopEnd {i} {a} p o n q r rest w fruitful answered here next =
      elim (Option-cases (validate_response m q r a)) [
        | inr (error, y) ↦ rw (y, judge) (fail-IsLoopEnd i o error w here)
        | inl y ↦
            let expected = valid-is_expected q r a y in
            elim (Bool-cases (is_review r.message_type)) [
              | inl review ↦
                  let four = review-place p r.message_type expected review in
                  rw (y, judge) (rw review (subst (λ k. IsAt k w) four here, review))
              | inr result ↦
                  rw (y, judge)
                    (rw result (
                      accepted-IsLoopEnd p o r rest w
                        (brings-expected p n q r fruitful answered expected) here next))
            ]
      ]

  -- The loop keeps the checkpoint, whatever the agents answer: when it raises, the state and all
  -- that was saved are checkpoints.
  pub run_agents-IsLoopEnd :
      (o : Overrides) (agents : List String) (i : ℕ) (w : World)
      → IsFruitful m
      → drop i agent_order ≡ agents
      → IsAt i w
      → IsLoopEnd o (run_agents m o agents i w)
  unfolding run_agents
  run_agents-IsLoopEnd o [] i w fruitful e here = fail-IsLoopEnd i o _ w here
  run_agents-IsLoopEnd o (a ∷ agents) i w fruitful e here =
      let (p, tail) = next-IsAgent i a agents e in
      let asked = request_agent-Keeps m i o a i w here in
      resume-IsLoopEnd o (request_agent m o a i w).0 _ (request_agent m o a i w).1 (kept _ asked)
        (λ q made.
          let w2 = (request_agent m o a i w).1 in
          let answer = await_response-Keeps m i a q w2 asked in
          resume-IsLoopEnd o (await_response m a q w2).0 _ (await_response m a q w2).1
            (kept _ answer)
            (λ r answered.
              let (n, executed) = await_response-answers m a q w2 r answered in
              judge-IsLoopEnd p o n q r (run_agents m o agents (suc i)) (await_response m a q w2).1
                fruitful executed answer
                (λ v there. run_agents-IsLoopEnd o agents (suc i) v fruitful tail there)))
