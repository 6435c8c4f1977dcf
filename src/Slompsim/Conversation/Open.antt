-- ===== src/Slompsim/Conversation/Open.antt =====
-- A conversation has at most one open proposal, that which can be applied, but for a failed application.
use slomp.Prelude.{
  ℕ, ◌+◌, ◌≤◌, ◌<◌, ◌≡◌, refl, ap, Bool, true, false, ◌||◌, not, Option, none, some, List, [], ◌∷◌,
  ◌++◌, map, length, length-append, filter, filter-append, if◌then◌else◌, ◌==◌, nat_eq, string_eq,
  ltb, any, includes, arith, Bool-cases, inl, inr, ◌⊎◌, String,
}
use mathlib.Core.List.{append-nil}
use slomp.Assistant.Review.{AcceptedStatusChange}
use slomp.Slompsim.Proposal.{Order, Proposal, AssistantProposals, to_proposal}
use slomp.Slompsim.Conversation.{
  ConversationState, ConversationEntry, ConversationAction, AssistantReply, Content, ProposalStage,
  is_open, is_applied, is_applying, is_discarded, in_conflict, answer, rows_of, is_failure,
  proposal, user, failure, unlisted, unchanged_in, UnlistedEntry, number_from, append_entries,
  set_stage, with_stage, add_proposal, replace_open_proposals, replaced_if_open, without_failures,
  close_question, settle_asked, settle_unlisted, propose, answered, conversation_reducer, sent,
  waits, replied, previewed, failed, discarded, applying, applied, apply_failed, conflict,
  unlisted_opened, reset, last_unlisted, is_unlisted_of,
}
use slomp.Slompsim.Conversation.Entries.{AreNumbered}
use slomp.Slompsim.Conversation.Numbered.{IsNumbered}

abbrev pub is_open_stage : ProposalStage → Bool
is_open_stage (is_open error) = true
is_open_stage _ = false

abbrev pub is_open_proposal : Content → Bool
is_open_proposal (proposal p stage) = is_open_stage stage
is_open_proposal _ = false

-- The open proposals of a conversation.
abbrev pub open_count : List ConversationEntry → ℕ
open_count es = length (filter (λ e. is_open_proposal e.content) es)

open_count-filter :
    (p : ConversationEntry → Bool) (es : List ConversationEntry)
    → open_count (filter p es) ≤ open_count es
open_count-filter p [] = omega arith
open_count-filter p (e ∷ es) = ground (arith, open_count-filter p es)

-- A change of contents that opens none.
open_count-map :
    (g : ConversationEntry → ConversationEntry) (es : List ConversationEntry)
    → ((e : ConversationEntry)
        → (is_open_proposal (g e).content ≡ false) ⊎ ((g e).content ≡ e.content))
    → open_count (map g es) ≤ open_count es
open_count-map g [] keep = omega arith
open_count-map g (e ∷ es) keep = elim (keep e) [
  | inl closed ↦ rw closed (ground (arith, open_count-map g es keep))
  | inr same ↦ rw same (ground (arith, open_count-map g es keep))
]

open_count-replaced : (es : List ConversationEntry) → open_count (replace_open_proposals es) ≡ 0
open_count-replaced [] = refl
open_count-replaced (e ∷ es) = rw (replaced-closed e.content) (open_count-replaced es)
  where
    replaced-closed : (c : Content) → is_open_proposal (replaced_if_open c) ≡ false
    replaced-closed c = ground arith

with_stage-closed :
    (stage : ProposalStage) (c : Content)
    → is_open_stage stage ≡ false
    → (is_open_proposal (with_stage stage c) ≡ false) ⊎ (with_stage stage c ≡ c)
with_stage-closed stage c closed = ground (arith, closed)

set_stage-closed :
    (id : ℕ) (stage : ProposalStage) (es : List ConversationEntry)
    → is_open_stage stage ≡ false
    → open_count (set_stage es id stage) ≤ open_count es
set_stage-closed id stage es closed = open_count-map _ es (λ e. elim (Bool-cases (e.id == id)) [
  | inl own ↦ rw own (with_stage-closed stage e.content closed)
  | inr other ↦ rw other (inr refl)
])

-- Ids from `low` on: an earlier one names none of the entries, and any names one at most.
set_stage-below :
    (low next id : ℕ) (stage : ProposalStage) (es : List ConversationEntry)
    → AreNumbered low next es
    → id < low
    → open_count (set_stage es id stage) ≡ open_count es
set_stage-below low next id stage [] h l = refl
set_stage-below low next id stage (e ∷ es) (h, hs) l =
    let other : (e.id == id) ≡ false = ground arith in
    rw (other) (ground (arith, set_stage-below (e.id + 1) next id stage es hs (omega arith)))

set_stage-one :
    (low next id : ℕ) (stage : ProposalStage) (es : List ConversationEntry)
    → AreNumbered low next es
    → open_count (set_stage es id stage) ≤ open_count es + 1
set_stage-one low next id stage [] h = omega arith
set_stage-one low next id stage (e ∷ es) (h, hs) = elim (Bool-cases (e.id == id)) [
  | inr other ↦ rw other (ground (arith, set_stage-one (e.id + 1) next id stage es hs))
  | inl own ↦
      let rest = set_stage-below (e.id + 1) next id stage es hs (ground arith) in
      rw own (ground (arith, rest))
]

append_entries-open :
    (s : ConversationState) (c : Content)
    → is_open_proposal c ≡ false
    → open_count (append_entries s (c ∷ [])).entries ≡ open_count s.entries
unfolding append_entries number_from
append_entries-open s c closed =
    rw
      (
        filter-append (λ e. is_open_proposal e.content) s.entries (number_from s.next_id (c ∷ [])),
        closed,
      )
      (ap length (append-nil (filter (λ e. is_open_proposal e.content) s.entries)))

add_proposal-open :
    (s : ConversationState) (p : Proposal) → open_count (add_proposal s p).entries ≡ 1
unfolding add_proposal append_entries number_from
add_proposal-open s p =
    let es : List ConversationEntry = replace_open_proposals s.entries in
    rw
      (
        filter-append (λ e. is_open_proposal e.content) es
            (record { id = s.next_id; content = proposal p (is_open none) } ∷ []),
        length-append (filter (λ e. is_open_proposal e.content) es)
            (record { id = s.next_id; content = proposal p (is_open none) } ∷ []),
        open_count-replaced s.entries,
      )
      refl

if-open :
    (b : Bool) (s t : ConversationState) (n : ℕ)
    → open_count s.entries ≤ n
    → open_count t.entries ≤ n
    → open_count (if b then s else t).entries ≤ n
if-open true s t n hs ht = hs
if-open false s t n hs ht = ht

settle_asked-open :
    (s : ConversationState) (ids : List ℕ) (asked : Option UnlistedEntry)
    → open_count (settle_asked s ids asked).entries ≤ open_count s.entries
settle_asked-open s ids none = omega arith
settle_asked-open s ids (some asked) =
    let closed : ConversationState = record s { entries = close_question asked s.entries } in
    let rows = filter (λ r. not (includes ids r.id)) asked.rows in
    let again : Content = unlisted asked.file_name rows true true in
    let fewer : open_count (close_question asked s.entries) ≤ open_count s.entries =
      open_count-map _ s.entries (λ e. elim (Bool-cases (e.id == asked.id)) [
        | inl own ↦ rw own (inl refl)
        | inr other ↦ rw other (inr refl)
      ]) in
    let same : open_count (append_entries closed (again ∷ [])).entries
        ≡ open_count (close_question asked s.entries) =
      append_entries-open closed again refl in
    let kept : Bool = not asked.asking || not (any (λ r. includes ids r.id) asked.rows) in
    if-open kept s (if length rows == 0 then closed else append_entries closed (again ∷ []))
      (open_count s.entries) (omega arith)
      (if-open (length rows == 0) closed (append_entries closed (again ∷ [])) (open_count s.entries)
        fewer (omega arith))

settle_unlisted-open :
    (s : ConversationState) (settled : List AcceptedStatusChange)
    → open_count (settle_unlisted s settled).entries ≤ open_count s.entries
unfolding settle_unlisted
settle_unlisted-open s settled =
    settle_asked-open s (map (λ c. c.settlement_id) settled) (last_unlisted s.entries)

answered-open :
    (s : ConversationState) (r : AssistantReply)
    → open_count (answered s r).entries ≤ open_count s.entries
answered-open s r =
    let same = append_entries-open s (answer r.reply (rows_of r.settlements)) refl in
    if-open (not (r.reply == "") || ltb 0 (length (rows_of r.settlements)))
      (append_entries s (answer r.reply (rows_of r.settlements) ∷ [])) s (open_count s.entries)
      (omega arith) (omega arith)

abbrev pub is_apply_failed : ConversationAction → Bool
is_apply_failed (apply_failed id message) = true
is_apply_failed _ = false

module _ (locale_compare : String → String → Order) where
  propose-open :
      (s : ConversationState) (proposals : Option AssistantProposals)
      → open_count s.entries ≤ 1
      → open_count (propose locale_compare s proposals).entries ≤ 1
  propose-open s none h = h
  propose-open s (some p) h =
      let one = add_proposal-open s (to_proposal locale_compare p 0) in omega arith

  -- Where ids ascend below the next one, every action keeps at most one proposal open; of a failed
  -- application this is stated where no proposal is open.
  pub conversation_reducer-open :
      (s : ConversationState) (action : ConversationAction)
      → IsNumbered s
      → open_count s.entries ≤ 1
      → (is_apply_failed action ≡ false) ⊎ (open_count s.entries ≡ 0)
      → open_count (conversation_reducer locale_compare s action).entries ≤ 1
  unfolding conversation_reducer
  conversation_reducer-open s (sent text) n h a =
      let t : ConversationState = record s {
        entries = without_failures s.entries;
        waiting = true;
      } in
      let same = append_entries-open t (user text) refl in
      let fewer = open_count-filter (λ e. not (is_failure e.content)) s.entries in omega arith
  conversation_reducer-open s waits n h a =
      let fewer = open_count-filter (λ e. not (is_failure e.content)) s.entries in omega arith
  conversation_reducer-open s (replied r) n h a =
      let t : ConversationState = record s { waiting = false } in
      let fewer = answered-open t r in propose-open (answered t r) r.proposals (omega arith)
  conversation_reducer-open s (previewed p) n h a =
      let one = add_proposal-open (record s { waiting = false }) p in omega arith
  conversation_reducer-open s (failed message can_retry) n h a =
      let same =
        append_entries-open (record s { waiting = false }) (failure message can_retry) refl in
      omega arith
  conversation_reducer-open s (discarded id) n h a =
      let fewer = set_stage-closed id is_discarded s.entries refl in omega arith
  conversation_reducer-open s (applying id) n h a =
      let fewer = set_stage-closed id is_applying s.entries refl in omega arith
  conversation_reducer-open s (applied id changes at) n h a =
      let settled : List AcceptedStatusChange = changes ++ unchanged_in s.entries id in
      let fewer = set_stage-closed id (is_applied changes at) s.entries refl in
      let t : ConversationState = record s {
        entries = set_stage s.entries id (is_applied changes at);
        applied_ids = s.applied_ids ++ map (λ c. c.settlement_id) settled;
      } in
      let least = settle_unlisted-open t settled in omega arith
  conversation_reducer-open s (apply_failed id message) n h (inl other) = absurd (ground arith)
  conversation_reducer-open s (apply_failed id message) n h (inr closed) =
      let one = set_stage-one 1 s.next_id id (is_open (some message)) s.entries n in omega arith
  conversation_reducer-open s (conflict id rejected message) n h a =
      let fewer = set_stage-closed id (in_conflict rejected message) s.entries refl in omega arith
  conversation_reducer-open s (unlisted_opened file_name file_rows rows) n h a =
      let t : ConversationState = record s { file_rows = some file_rows } in
      let same = append_entries-open t (unlisted file_name rows true false) refl in
      if-open (is_unlisted_of file_name s.entries) t
        (append_entries t (unlisted file_name rows true false ∷ [])) 1 h (omega arith)
  conversation_reducer-open s reset n h a = omega arith
