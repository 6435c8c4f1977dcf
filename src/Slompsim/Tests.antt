-- ===== src/Slompsim/Tests.antt =====
-- The reducer at concrete inputs.
use slomp.Prelude.{◌≤◌, refl, false, none, [], ◌∷◌, arith, inr, String}
use slomp.Slompsim.Proposal.{Order, level, Proposal}
use slomp.Slompsim.Conversation.{
  ConversationState, conversation_reducer, proposal, is_applying, user, apply_failed,
}
use slomp.Slompsim.Conversation.Open.{open_count, conversation_reducer-open}

abbrev all_level : String → String → Order
all_level a b = level

abbrev one_change : Proposal
one_change = record { changes = []; unchanged = []; rejected = []; note = none; left_out = 0 }

abbrev asked : ConversationState
asked = record {
  entries =
      record { id = 1; content = user "hola" }
      ∷ record { id = 2; content = proposal one_change is_applying }
      ∷ [];
  next_id = 3;
  waiting = false;
  file_rows = none;
  applied_ids = [];
}

conversation_reducer-open_example :
    open_count (conversation_reducer all_level asked (apply_failed 2 "sin conexión")).entries ≤ 1
conversation_reducer-open_example =
    conversation_reducer-open all_level asked (apply_failed 2 "sin conexión")
      (omega arith, (omega arith, omega arith)) (omega arith) (inr refl)
