-- ===== src/Slompsim/Conversation.antt =====
-- apps/frontend/src/domain/slompsimConversation.ts: the reducer of one conversation with Slompsim.
-- A text of the panel or of the model is a String; a time is the number of its instant.
pub mod Entries
pub mod Numbered
pub mod Open
use slomp.Prelude.{
  ℕ, ◌+◌, Bool, true, false, ◌&&◌, ◌||◌, not, Option, none, some, List, [], ◌∷◌, ◌++◌, map,
  if◌then◌else◌, ◌==◌, nat_eq, string_eq, Eq, any, find, filter, includes, length, ltb, String,
}
use slomp.Assistant.Review.{AcceptedStatusChange, RejectedStatusChange}
use slomp.Slompsim.Proposal.{Order, Proposal, AssistantProposals, AssistantSettlement, to_proposal}

pub data ProposalStage : Type 0 where
  is_open : Option String → ProposalStage
  is_applying : ProposalStage
  is_applied : List AcceptedStatusChange → ℕ → ProposalStage
  is_discarded : ProposalStage
  is_replaced : ProposalStage
  in_conflict : List RejectedStatusChange → String → ProposalStage

-- What an entry holds beside its id.
pub data Content : Type 0 where
  user : String → Content
  answer : String → List AssistantSettlement → Content
  proposal : Proposal → ProposalStage → Content
  unlisted : String → List AssistantSettlement → Bool → Bool → Content
  failure : String → Bool → Content

pub record ConversationEntry : Type 0 where
  pub id : ℕ
  pub content : Content

-- A row of the payment orders Excel: its property and its period.
pub record ConversationState : Type 0 where
  pub entries : List ConversationEntry
  pub next_id : ℕ
  pub waiting : Bool
  pub file_rows : Option (List (String × ℕ))
  pub applied_ids : List ℕ

abbrev pub initial_conversation : ConversationState
initial_conversation = record {
  entries = [];
  next_id = 1;
  waiting = false;
  file_rows = none;
  applied_ids = [];
}

pub record AssistantReply : Type 0 where
  pub reply : String
  pub proposals : Option AssistantProposals
  pub settlements : Option (List AssistantSettlement)

pub data ConversationAction : Type 0 where
  sent : String → ConversationAction
  waits : ConversationAction
  replied : AssistantReply → ConversationAction
  previewed : Proposal → ConversationAction
  failed : String → Bool → ConversationAction
  discarded : ℕ → ConversationAction
  applying : ℕ → ConversationAction
  applied : ℕ → List AcceptedStatusChange → ℕ → ConversationAction
  apply_failed : ℕ → String → ConversationAction
  conflict : ℕ → List RejectedStatusChange → String → ConversationAction
  unlisted_opened : String → List (String × ℕ) → List AssistantSettlement → ConversationAction
  reset : ConversationAction

unfoldable pub number_from : ℕ → List Content → List ConversationEntry
number_from id [] = []
number_from id (c ∷ cs) = record { id = id; content = c } ∷ number_from (id + 1) cs

unfoldable pub append_entries : ConversationState → List Content → ConversationState
unfolding number_from
append_entries state added = record state {
  entries = state.entries ++ number_from state.next_id added;
  next_id = state.next_id + length added;
}

abbrev pub with_stage : ProposalStage → Content → Content
with_stage stage (proposal p old) = proposal p stage
with_stage stage c = c

abbrev pub set_stage : List ConversationEntry → ℕ → ProposalStage → List ConversationEntry
set_stage entries id stage =
    map (λ e. if e.id == id then record e { content = with_stage stage e.content } else e) entries

abbrev pub replaced_if_open : Content → Content
replaced_if_open (proposal p (is_open error)) = proposal p is_replaced
replaced_if_open c = c

abbrev pub replace_open_proposals : List ConversationEntry → List ConversationEntry
replace_open_proposals =
    map (λ (e : ConversationEntry). record e { content = replaced_if_open e.content })

abbrev pub is_failure : Content → Bool
is_failure (failure message can_retry) = true
is_failure _ = false

abbrev pub without_failures : List ConversationEntry → List ConversationEntry
without_failures = filter (λ e. not (is_failure e.content))

unfoldable pub add_proposal : ConversationState → Proposal → ConversationState
unfolding append_entries
add_proposal state p =
    append_entries (record state { entries = replace_open_proposals state.entries })
      (proposal p (is_open none) ∷ [])

-- An unlisted entry, with its fields.
pub record UnlistedEntry : Type 0 where
  pub id : ℕ
  pub file_name : String
  pub rows : List AssistantSettlement
  pub asking : Bool
  pub continued : Bool

abbrev pub unlisted_content : ℕ → Content → Option UnlistedEntry
unlisted_content id (unlisted file_name rows asking continued) =
    some (record {
      id = id;
      file_name = file_name;
      rows = rows;
      asking = asking;
      continued = continued;
    })
unlisted_content id _ = none

abbrev pub unlisted_of : ConversationEntry → Option UnlistedEntry
unlisted_of e = unlisted_content e.id e.content

abbrev later_of : Option UnlistedEntry → Option UnlistedEntry → Option UnlistedEntry
later_of found none = found
later_of found (some later) = some later

-- entries.filter(… "unlisted").at(-1)
unfoldable pub last_unlisted : List ConversationEntry → Option UnlistedEntry
last_unlisted [] = none
last_unlisted (e ∷ es) = later_of (unlisted_of e) (last_unlisted es)

abbrev unchanged_of : Content → List AcceptedStatusChange
unchanged_of (proposal p stage) = p.unchanged
unchanged_of _ = []

pub unchanged_in : List ConversationEntry → ℕ → List AcceptedStatusChange
unchanged_in entries id = elim (find (λ e. e.id == id) entries) [
  | none ↦ []
  | some e ↦ unchanged_of e.content
]

-- `{ ...asked, asking: false }` in the place of the entry with its id
abbrev pub close_question : UnlistedEntry → List ConversationEntry → List ConversationEntry
close_question asked = map (λ e.
    if e.id == asked.id
    then record e { content = unlisted asked.file_name asked.rows false asked.continued }
    else e)

abbrev pub settle_asked : ConversationState → List ℕ → Option UnlistedEntry → ConversationState
settle_asked state ids none = state
settle_asked state ids (some asked) =
    let rows = filter (λ r. not (includes ids r.id)) asked.rows in
    let closed = record state { entries = close_question asked state.entries } in
    if not asked.asking || not (any (λ r. includes ids r.id) asked.rows)
    then state
    else if length rows == 0
    then closed
    else append_entries closed (unlisted asked.file_name rows true true ∷ [])

unfoldable pub settle_unlisted : ConversationState → List AcceptedStatusChange → ConversationState
unfolding append_entries last_unlisted
settle_unlisted state settled =
    settle_asked state (map (λ c. c.settlement_id) settled) (last_unlisted state.entries)

abbrev pub rows_of : Option (List AssistantSettlement) → List AssistantSettlement
rows_of none = []
rows_of (some rows) = rows

-- `last?.kind === "unlisted" && last.fileName === …` for the last entry
abbrev pub is_unlisted_of : String → List ConversationEntry → Bool
is_unlisted_of file_name [] = false
is_unlisted_of file_name (e ∷ []) = elim (unlisted_of e) [
  | none ↦ false
  | some u ↦ u.file_name == file_name
]
is_unlisted_of file_name (e ∷ e' ∷ es) = is_unlisted_of file_name (e' ∷ es)

abbrev pub answered : ConversationState → AssistantReply → ConversationState
answered state r =
    if not (r.reply == "") || ltb 0 (length (rows_of r.settlements))
    then append_entries state (answer r.reply (rows_of r.settlements) ∷ [])
    else state

module _ (locale_compare : String → String → Order) where
  abbrev pub propose : ConversationState → Option AssistantProposals → ConversationState
  propose state none = state
  propose state (some p) = add_proposal state (to_proposal locale_compare p 0)

  unfoldable pub conversation_reducer : ConversationState → ConversationAction → ConversationState
  unfolding append_entries add_proposal settle_unlisted
  conversation_reducer state (sent text) =
      append_entries (record state { entries = without_failures state.entries; waiting = true })
        (user text ∷ [])
  conversation_reducer state waits = record state {
    entries = without_failures state.entries;
    waiting = true;
  }
  conversation_reducer state (replied r) =
      propose (answered (record state { waiting = false }) r) r.proposals
  conversation_reducer state (previewed p) = add_proposal (record state { waiting = false }) p
  conversation_reducer state (failed message can_retry) =
      append_entries (record state { waiting = false }) (failure message can_retry ∷ [])
  conversation_reducer state (discarded id) = record state {
    entries = set_stage state.entries id is_discarded;
  }
  conversation_reducer state (applying id) = record state {
    entries = set_stage state.entries id is_applying;
  }
  conversation_reducer state (applied id changes at) =
      let settled = changes ++ unchanged_in state.entries id in
      settle_unlisted
        (record state {
          entries = set_stage state.entries id (is_applied changes at);
          applied_ids = state.applied_ids ++ map (λ c. c.settlement_id) settled;
        })
        settled
  conversation_reducer state (apply_failed id message) = record state {
    entries = set_stage state.entries id (is_open (some message));
  }
  conversation_reducer state (conflict id rejected message) = record state {
    entries = set_stage state.entries id (in_conflict rejected message);
  }
  conversation_reducer state (unlisted_opened file_name file_rows rows) =
      let with_file = record state { file_rows = some file_rows } in
      if is_unlisted_of file_name state.entries
      then with_file
      else append_entries with_file (unlisted file_name rows true false ∷ [])
  conversation_reducer state reset = initial_conversation

abbrev is_user : Content → Bool
is_user (user text) = true
is_user _ = false

-- The entries before the last one of the user; none where there is no such entry.
before_last_user : List ConversationEntry → Option (List ConversationEntry)
before_last_user [] = none
before_last_user (e ∷ es) = elim (before_last_user es) [
  | some earlier ↦ some (e ∷ earlier)
  | none ↦ if is_user e.content then some [] else none
]

pub without_last_message : List ConversationEntry → List ConversationEntry
unfolding before_last_user
without_last_message entries = elim (before_last_user entries) [
  | none ↦ entries
  | some earlier ↦ earlier
]

abbrev stage_is_applying : Content → Bool
stage_is_applying (proposal p is_applying) = true
stage_is_applying _ = false

pub is_any_applying : List ConversationEntry → Bool
is_any_applying = any (λ e. stage_is_applying e.content)
