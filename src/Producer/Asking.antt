-- ===== src/Producer/Asking.antt =====
-- Asking an agent in `ProducerManager` (producer/manager.py) keeps the checkpoint.
use prdcp.Shared.{ℕ, String, ◌≡◌, refl, ◌∙◌, ap, true, Option, ok, text_eq}
use prdcp.Pmp.{PmpMessage}
use prdcp.Exchange.Exec.{resume-ok}
use prdcp.Producer.Setting.{Manager, World, last, modify, save, draw, append_message}
use prdcp.Producer.Payload.{build_payload}
use prdcp.Producer.Drafts.{Draft, is_result, payload_fields}
use prdcp.Producer.Messages.{create, create_task_message}
use prdcp.Producer.Agents.{
  Overrides, at_agent, fail, keep_message, task_for, request_agent, await_response,
}
use prdcp.Producer.Progress.{brings}
use prdcp.Producer.Steps.{IsAt, Keeps, same-IsCheckpoint, resume-IsAt}

-- Every result of an agent has the artifact that the agent is asked for, which its output schema
-- requires.
abbrev pub IsFruitful : Manager → Type 0
IsFruitful m =
    (n : ℕ) (agent : String) (request response : PmpMessage)
    → m.execute n agent request ≡ ok response
    → is_result response.message_type ≡ true
    → brings agent (payload_fields response.payload) ≡ true

module _ (m : Manager) where
  pub create-Keeps : (n : ℕ) (d : Draft) → Keeps n (create m d)
  unfolding create
  create-Keeps n d w p = record { now = p.now; saved = p.saved }

  pub fail-Keeps : (n : ℕ) (message : String) → Keeps n (fail m message)
  unfolding fail
  fail-Keeps n message w p =
      let c =
        same-IsCheckpoint n w.state (fail m message w).1.state
          record { completed = refl; candidates = refl; topic = refl; opinion = refl; plan = refl }
          p.now in
      record { now = c; saved = ((n, c), p.saved) }

  create_task_message-Keeps :
      (n : ℕ) (agent : String) (i : ℕ) (p r : Option String)
      → Keeps n (create_task_message m agent i p r)
  unfolding create_task_message create
  create_task_message-Keeps n agent i p r w q =
      resume-IsAt n (build_payload m.time_text w.state agent) _ w q (λ payload e.
        resume-IsAt n (last w.state.role_definition_usage) _ w q
          (λ role e2. record { now = q.now; saved = q.saved }))

  keep_message-Keeps : (n : ℕ) (message : PmpMessage) → Keeps n (keep_message m message)
  keep_message-Keeps n message w p =
      let c =
        same-IsCheckpoint n w.state (append_message message w).1.state
          record { completed = refl; candidates = refl; topic = refl; opinion = refl; plan = refl }
          p.now in
      record { now = c; saved = ((n, c), p.saved) }

  pub request_agent-Keeps :
      (n : ℕ) (o : Overrides) (agent : String) (i : ℕ) → Keeps n (request_agent m o agent i)
  unfolding request_agent
  request_agent-Keeps n o agent i w p =
      let c =
        same-IsCheckpoint n w.state (at_agent agent w.state)
          record { completed = refl; candidates = refl; topic = refl; opinion = refl; plan = refl }
          p.now in
      let v = (save (modify (at_agent agent) w).1).1 in
      resume-IsAt n (task_for m o agent i v).0 (keep_message m) (task_for m o agent i v).1
        (create_task_message-Keeps n agent i _ _ v (record { now = c; saved = ((n, c), p.saved) }))
        (λ q made. keep_message-Keeps n q _ (
          create_task_message-Keeps n agent i _ _ v
            (record { now = c; saved = ((n, c), p.saved) })))

  pub await_response-Keeps :
      (n : ℕ) (agent : String) (q : PmpMessage) → Keeps n (await_response m agent q)
  unfolding await_response
  await_response-Keeps n agent q w p =
      let v : IsAt n (draw w).1 = record { now = p.now; saved = p.saved } in
      resume-IsAt n (m.execute w.drawn agent q) (keep_message m) (draw w).1 v
        (λ r answered. keep_message-Keeps n r (draw w).1 v)

  pub await_response-answers :
      (agent : String) (q : PmpMessage) (w : World) (r : PmpMessage)
      → (await_response m agent q w).0 ≡ ok r
      → (n : ℕ) × (m.execute n agent q ≡ ok r)
  unfolding await_response
  await_response-answers agent q w r h =
      let (r2, answered, h2) =
        resume-ok (m.execute w.drawn agent q) (keep_message m) (draw w).1 r h in
      let same : r2 ≡ r = cc in (w.drawn, answered ∙ ap ok same)
