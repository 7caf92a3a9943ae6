-- ===== src/Producer/Ledgers.antt =====
-- The revision methods of `ProducerManager` (producer/manager.py) work on a part of the manager's
-- world: the control state and the messages of the workflow, the revision exchange, and what is
-- drawn. The rest of the state they only read, as the argument `s`. Also `_append_message_once`.
use prdcp.Shared.{
  ℕ, suc, none, some, List, [], ◌∷◌, ◌++◌, ◌==◌, text_eq, nat_eq, Eq, discrete_eq, String_discrete,
  ℕ_discrete, find_first, if◌then◌else◌, Outcome, ok, raise, value_error, file_not_found,
}
use prdcp.Revision.Control.{RevisionControlState}
use prdcp.Pmp.{PmpMessage}
use prdcp.Exchange.Exec.{Exec}
use prdcp.Exchange.Store.{Repository}
use prdcp.Producer.Model.{ProducerWorkflowState}
use prdcp.Producer.Setting.{Step}

pub record Ledger : Type 0 where
  pub control : RevisionControlState
  pub history : List PmpMessage
  pub exchange : Repository
  pub drawn : ℕ

abbrev pub Entry : Type 0 → Type 0
Entry = Exec Ledger

-- A method of a revision on the manager's world.
abbrev pub on_ledger : {A : Type 0} → (ProducerWorkflowState → Entry A) → Step A
on_ledger f w =
    let before : Ledger = record {
      control = w.state.revision_control;
      history = w.state.message_history;
      exchange = w.exchange;
      drawn = w.drawn;
    } in
    let (r, l) = f w.state before in
    (
      r,
      record w {
        state = record w.state { revision_control = l.control; message_history = l.history };
        exchange = l.exchange;
        drawn = l.drawn;
      },
    )

abbrev pub read_ledger : Entry Ledger
read_ledger l = (ok l, l)

abbrev pub draw_entry : Entry ℕ
draw_entry l = (ok l.drawn, record l { drawn = suc l.drawn })

abbrev pub put_control : RevisionControlState → Entry (Unit {0})
put_control c l = (ok tt, record l { control = c })

abbrev pub exchanged : {A : Type 0} → Exec Repository A → Entry A
exchanged m l = let (r, e) = m l.exchange in (r, record l { exchange = e })

-- try: m, except FileNotFoundError: other
abbrev pub missing_or : {A : Type 0} → Outcome A × Ledger → Entry A → Outcome A × Ledger
missing_or (raise (file_not_found t), l) other = other l
missing_or (ok a, l) other = (ok a, l)
missing_or (raise e, l) other = (raise e, l)

abbrev pub or_missing : {A : Type 0} → Entry A → Entry A → Entry A
or_missing m other l = missing_or (m l) other

unfoldable pub PmpMessage-discrete : Discrete PmpMessage
unfolding String_discrete ℕ_discrete
PmpMessage-discrete = hlevel (String_discrete, ℕ_discrete)

instance abbrev pub message_eq : Eq PmpMessage
message_eq = discrete_eq PmpMessage-discrete

-- `_append_message_once`
unfoldable pub append_message_once : PmpMessage → Entry (Unit {0})
unfolding PmpMessage-discrete
append_message_once message l =
    elim (find_first (λ item. item.message_id == message.message_id) l.history) [
      | none ↦ (ok tt, record l { history = l.history ++ message ∷ [] })
      | some existing ↦
          if existing == message
          then (ok tt, l)
          else (raise (value_error "Producer Revision message identity conflict"), l)
    ]
