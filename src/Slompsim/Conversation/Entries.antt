-- ===== src/Slompsim/Conversation/Entries.antt =====
-- The numbering of a list of entries, through what the reducer does to lists of entries.
use slomp.Prelude.{
  ℕ, ◌+◌, ◌≤◌, ◌≡◌, Bool, List, [], ◌∷◌, ◌++◌, map, length, filter, arith, Bool-cases, inl, inr,
}
use slomp.Slompsim.Conversation.{ConversationEntry, Content, number_from}

-- The ids ascend, from `low` on and below `next`.
abbrev pub AreNumbered : ℕ → ℕ → List ConversationEntry → Type 0
AreNumbered low next [] = low ≤ next
AreNumbered low next (e ∷ es) = (low ≤ e.id) × AreNumbered (e.id + 1) next es

weaken :
    (low low' next : ℕ) (es : List ConversationEntry)
    → low' ≤ low
    → AreNumbered low next es
    → AreNumbered low' next es
weaken low low' next [] l h = omega arith
weaken low low' next (e ∷ es) l (h, hs) = (omega arith, hs)

pub AreNumbered-filter :
    (p : ConversationEntry → Bool) (low next : ℕ) (es : List ConversationEntry)
    → AreNumbered low next es
    → AreNumbered low next (filter p es)
AreNumbered-filter p low next [] h = h
AreNumbered-filter p low next (e ∷ es) (h, hs) = elim (Bool-cases (p e)) [
  | inl kept ↦ rw kept (h, AreNumbered-filter p (e.id + 1) next es hs)
  | inr dropped ↦ rw dropped (
      weaken (e.id + 1) low next (filter p es) (omega arith)
        (AreNumbered-filter p (e.id + 1) next es hs))
]

pub AreNumbered-map :
    (g : ConversationEntry → ConversationEntry) (low next : ℕ) (es : List ConversationEntry)
    → ((e : ConversationEntry) → (g e).id ≡ e.id)
    → AreNumbered low next es
    → AreNumbered low next (map g es)
AreNumbered-map g low next [] same h = h
AreNumbered-map g low next (e ∷ es) same (h, hs) =
    rw (same e) (h, AreNumbered-map g (e.id + 1) next es same hs)

pub AreNumbered-number_from :
    (low next : ℕ) (added : List Content)
    → low ≤ next
    → AreNumbered low (next + length added) (number_from next added)
unfolding number_from
AreNumbered-number_from low next [] l = omega arith
AreNumbered-number_from low next (c ∷ cs) l =
    (l, ground (arith, AreNumbered-number_from (next + 1) (next + 1) cs))

pub AreNumbered-append :
    (low next : ℕ) (es : List ConversationEntry) (added : List Content)
    → AreNumbered low next es
    → AreNumbered low (next + length added) (es ++ number_from next added)
AreNumbered-append low next [] added h = AreNumbered-number_from low next added h
AreNumbered-append low next (e ∷ es) added (h, hs) =
    (h, AreNumbered-append (e.id + 1) next es added hs)
