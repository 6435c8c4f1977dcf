-- ===== src/Slompsim/Conversation/Numbered.antt =====
-- The ids of a conversation ascend and stay below the next one, so that an id names one entry.
use slomp.Prelude.{
  ℕ, refl, Bool, true, false, ◌||◌, not, Option, none, some, List, [], ◌∷◌, ◌++◌, map, length,
  filter, if◌then◌else◌, ◌==◌, nat_eq, string_eq, arith, Bool-cases, inl, inr, String, any,
  includes,
}
use slomp.Assistant.Review.{AcceptedStatusChange}
use slomp.Slompsim.Proposal.{Order, Proposal, AssistantProposals}
use slomp.Slompsim.Conversation.{
  ConversationState, ConversationEntry, ConversationAction, AssistantReply, Content, ProposalStage,
  is_open, is_applied, proposal, user, failure, unlisted, unchanged_in, UnlistedEntry,
  append_entries, set_stage, with_stage, add_proposal, replace_open_proposals, without_failures,
  close_question, settle_asked, settle_unlisted, propose, answered, conversation_reducer, sent,
  waits, replied, previewed, failed, discarded, applying, applied, apply_failed, conflict,
  unlisted_opened, reset, last_unlisted,
}
use slomp.Slompsim.Conversation.Entries.{
  AreNumbered, AreNumbered-filter, AreNumbered-map, AreNumbered-append,
}

abbrev pub IsNumbered : ConversationState → Type 0
IsNumbered s = AreNumbered 1 s.next_id s.entries

append_entries-IsNumbered :
    (s : ConversationState) (added : List Content)
    → IsNumbered s
    → IsNumbered (append_entries s added)
unfolding append_entries
append_entries-IsNumbered s added h = AreNumbered-append 1 s.next_id s.entries added h

set_stage-AreNumbered :
    (next id : ℕ) (es : List ConversationEntry) (stage : ProposalStage)
    → AreNumbered 1 next es
    → AreNumbered 1 next (set_stage es id stage)
set_stage-AreNumbered next id es stage h =
    AreNumbered-map
      (λ e. if e.id == id then record e { content = with_stage stage e.content } else e) 1 next es
      (λ e. ground arith) h

add_proposal-IsNumbered :
    (s : ConversationState) (p : Proposal) → IsNumbered s → IsNumbered (add_proposal s p)
unfolding add_proposal
add_proposal-IsNumbered s p h =
    append_entries-IsNumbered (record s { entries = replace_open_proposals s.entries })
      (proposal p (is_open none) ∷ []) (AreNumbered-map _ 1 s.next_id s.entries (λ e. refl) h)

settle_asked-IsNumbered :
    (s : ConversationState) (ids : List ℕ) (asked : Option UnlistedEntry)
    → IsNumbered s
    → IsNumbered (settle_asked s ids asked)
settle_asked-IsNumbered s ids none h = h
settle_asked-IsNumbered s ids (some asked) h =
    let closed : ConversationState = record s { entries = close_question asked s.entries } in
    let hc : IsNumbered closed = AreNumbered-map _ 1 s.next_id s.entries (λ e. ground arith) h in
    elim (Bool-cases (not asked.asking || not (any (λ r. includes ids r.id) asked.rows))) [
      | inl kept ↦ rw kept h
      | inr answered_some ↦
          elim (Bool-cases (length (filter (λ r. not (includes ids r.id)) asked.rows) == 0)) [
            | inl all_settled ↦ rw (answered_some, all_settled) hc
            | inr left ↦ rw (answered_some, left) (append_entries-IsNumbered closed _ hc)
          ]
    ]

settle_unlisted-IsNumbered :
    (s : ConversationState) (settled : List AcceptedStatusChange)
    → IsNumbered s
    → IsNumbered (settle_unlisted s settled)
unfolding settle_unlisted
settle_unlisted-IsNumbered s settled h =
    settle_asked-IsNumbered s (map (λ c. c.settlement_id) settled) (last_unlisted s.entries) h

if-IsNumbered :
    (b : Bool) (s t : ConversationState)
    → IsNumbered s
    → IsNumbered t
    → IsNumbered (if b then s else t)
if-IsNumbered true s t hs ht = hs
if-IsNumbered false s t hs ht = ht

answered-IsNumbered :
    (s : ConversationState) (r : AssistantReply) → IsNumbered s → IsNumbered (answered s r)
answered-IsNumbered s r h = if-IsNumbered _ _ s (append_entries-IsNumbered s _ h) h

module _ (locale_compare : String → String → Order) where
  propose-IsNumbered :
      (s : ConversationState) (proposals : Option AssistantProposals)
      → IsNumbered s
      → IsNumbered (propose locale_compare s proposals)
  propose-IsNumbered s none h = h
  propose-IsNumbered s (some p) h = add_proposal-IsNumbered s _ h

  -- Every action keeps the ids of the entries ascending and below the next id.
  conversation_reducer-IsNumbered :
      (s : ConversationState) (action : ConversationAction)
      → IsNumbered s
      → IsNumbered (conversation_reducer locale_compare s action)
  unfolding conversation_reducer
  conversation_reducer-IsNumbered s (sent text) h =
      append_entries-IsNumbered (record s { entries = without_failures s.entries; waiting = true })
        (user text ∷ []) (AreNumbered-filter _ 1 s.next_id s.entries h)
  conversation_reducer-IsNumbered s waits h = AreNumbered-filter _ 1 s.next_id s.entries h
  conversation_reducer-IsNumbered s (replied r) h =
      propose-IsNumbered _ r.proposals (answered-IsNumbered (record s { waiting = false }) r h)
  conversation_reducer-IsNumbered s (previewed p) h =
      add_proposal-IsNumbered (record s { waiting = false }) p h
  conversation_reducer-IsNumbered s (failed message can_retry) h =
      append_entries-IsNumbered (record s { waiting = false }) (failure message can_retry ∷ []) h
  conversation_reducer-IsNumbered s (discarded id) h =
      set_stage-AreNumbered s.next_id id s.entries _ h
  conversation_reducer-IsNumbered s (applying id) h =
      set_stage-AreNumbered s.next_id id s.entries _ h
  conversation_reducer-IsNumbered s (applied id changes at) h =
      let settled : List AcceptedStatusChange = changes ++ unchanged_in s.entries id in
      settle_unlisted-IsNumbered
        (record s {
          entries = set_stage s.entries id (is_applied changes at);
          applied_ids = s.applied_ids ++ map (λ c. c.settlement_id) settled;
        })
        settled (set_stage-AreNumbered s.next_id id s.entries (is_applied changes at) h)
  conversation_reducer-IsNumbered s (apply_failed id message) h =
      set_stage-AreNumbered s.next_id id s.entries _ h
  conversation_reducer-IsNumbered s (conflict id rejected message) h =
      set_stage-AreNumbered s.next_id id s.entries _ h
  conversation_reducer-IsNumbered s (unlisted_opened file_name file_rows rows) h =
      let with_file : ConversationState = record s { file_rows = some file_rows } in
      if-IsNumbered _ with_file _ h
        (append_entries-IsNumbered with_file (unlisted file_name rows true false ∷ []) h)
  conversation_reducer-IsNumbered s reset h = omega arith
