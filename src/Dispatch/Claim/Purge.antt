-- ===== src/Dispatch/Claim/Purge.antt =====
-- What purge_due_agent_media (services/agent_dispatcher.py) leaves behind in the rows of one dispatch.
use fireviewer_backend.Dispatch.Claim.{
  cancelling_rows, due_first, due_items, is_listed, is_purge_due, is_terminal, purge_chosen,
  purge_due_agent_media, purged_item, redacted, redacted_rows, redacted_work,
}
use fireviewer_backend.Dispatch.Rows.{AgentDispatchState, AgentMediaItem, Work}
use fireviewer_backend.Platform.{array, nil, null, object}
use fireviewer_backend.Prelude.{
  ==_refl, All, All-append_right, All-imp, All-imp2, All-of, All-select_self, All-sorted,
  All-sorted_inv, All-take_first, All-unselect, All-update_kept, All-update_to, Bool, Bool-cases,
  InOrder, List, Mem, [], any, ap, arith, false, if_cases, inl, inr, length, none, refl, select,
  some, sorted, sorted-InOrder, suc, sym, take_first, true, update, zero, ℕ, ◌++◌, ◌<◌, ◌∷◌, ◌≡◌,
  ◌≤◌, ◌⊎◌,
}

due_first_trans :
    (a b c : AgentMediaItem) → due_first a b ≡ true → due_first b c ≡ true → due_first a c ≡ true
due_first_trans a b c p q = ground (arith, p, q)

due_first_total : (a b : AgentMediaItem) → due_first a b ≡ false → due_first b a ≡ true
due_first_total a b p = ground (arith, p)

-- The order of the purge: the time first, then the key.
abbrev IsBefore : AgentMediaItem → AgentMediaItem → Type 0
IsBefore a b = (a.purge_after < b.purge_after) ⊎ ((a.purge_after ≡ b.purge_after) × (a.id ≤ b.id))

due_first-IsBefore : (a b : AgentMediaItem) → due_first a b ≡ true → IsBefore a b
due_first-IsBefore a b h = ground (arith, h)

-- An item that is left out stands behind a full list.
abbrev IsBehind : ℕ → List AgentMediaItem → AgentMediaItem → Type 0
IsBehind limit items i =
    (length items ≡ limit) × All (λ (row : AgentMediaItem). IsBefore row i) items

abbrev IsDue : ℕ → AgentMediaItem → Type 0
IsDue now i = (i.purged_at ≡ none) × (i.purge_after ≤ now)

is_purge_due-IsDue : (now : ℕ) (i : AgentMediaItem) → is_purge_due now i ≡ true → IsDue now i
is_purge_due-IsDue now i h = ground (arith, h)

IsDue-is_purge_due : (now : ℕ) (i : AgentMediaItem) → IsDue now i → is_purge_due now i ≡ true
IsDue-is_purge_due now i h = ground (arith, h.0, h.1)

taken_or_IsBehind :
    (limit : ℕ) (items : List AgentMediaItem)
    → InOrder due_first items
    → All
        (λ (i : AgentMediaItem).
          (is_listed (take_first limit items) i ≡ true) ⊎ IsBehind limit (take_first limit items) i)
        items
unfolding any
taken_or_IsBehind zero items h =
    All-of (λ (i : AgentMediaItem). (is_listed [] i ≡ true) ⊎ IsBehind 0 [] i) items
      (λ i. inr (refl, tt))
taken_or_IsBehind (suc limit) [] h = tt
taken_or_IsBehind (suc limit) (x ∷ items) h = (
  inl (ground (arith, ==_refl x.id)),
  All-imp2 items
      (λ i first later. elim later [
        | inl taken ↦ inl (ground (arith, taken))
        | inr (full, firsts) ↦ inr (ap suc full, (due_first-IsBefore x i first, firsts))
      ])
      h.0 (taken_or_IsBehind limit items h.1),
)

take_first-length :
    (limit : ℕ) (items : List AgentMediaItem) → length (take_first limit items) ≤ limit
take_first-length zero items = omega arith
take_first-length (suc limit) [] = omega arith
take_first-length (suc limit) (x ∷ items) = omega (arith, take_first-length limit items)

-- The same of the whole table.
due_or_IsBehind :
    (limit now : ℕ) (table : List AgentMediaItem)
    → All
        (λ (i : AgentMediaItem).
          is_purge_due now i ≡ true
          → (is_listed (due_items limit now table) i ≡ true)
            ⊎ IsBehind limit (due_items limit now table) i)
        table
unfolding due_items
due_or_IsBehind limit now table =
    let due = select (is_purge_due now) table in
    let items = take_first limit (sorted due_first due) in
    let P = λ (i : AgentMediaItem). (is_listed items i ≡ true) ⊎ IsBehind limit items i in
    All-unselect P (is_purge_due now) table (
      All-sorted_inv P due_first due (
        taken_or_IsBehind limit (sorted due_first due)
          (sorted-InOrder due_first due_first_trans due_first_total due)))

abbrev IsEmptied : ℕ → AgentMediaItem → Type 0
IsEmptied now i =
    (i.working_file_url ≡ none)
    × (i.metadata_payload ≡ object [])
    × (i.processable_payload
        ≡ object (("frames", array nil) ∷ ("audio_url", null) ∷ ("article_text", null) ∷ []))
    × (i.preprocessing_status ≡ "purged")
    × (i.purged_at ≡ some now)

-- What a purge owes to the rows that it started from.
pub record IsPurged {C : Type 0} (limit now : ℕ) (others : List AgentMediaItem) (w v : Work C)
    : Type 0 where
  pub bounded : length (due_items limit now (others ++ w.items)) ≤ limit
  pub due : All (IsDue now) (due_items limit now (others ++ w.items))
  pub emptied :
      All
        (λ (i : AgentMediaItem).
          is_listed (due_items limit now (others ++ w.items)) i ≡ true → IsEmptied now i)
        v.items
  pub kept :
      All
        (λ (i : AgentMediaItem).
          is_listed (due_items limit now (others ++ w.items)) i ≡ false → Mem i v.items)
        w.items
  pub left_over :
      All
        (λ (i : AgentMediaItem).
          IsDue now i → IsBehind limit (due_items limit now (others ++ w.items)) i)
        v.items
  pub redacted_dispatch :
      any (is_listed (due_items limit now (others ++ w.items))) w.items ≡ true
      → (v.dispatch.payload ≡ redacted w.batch.batch_id)
        × (v.dispatch.raw_output ≡ none)
        × ((is_terminal v.dispatch.state ≡ true)
            ⊎ (v.dispatch.state ≡ AgentDispatchState.cancel_requested))

module _ {C : Type 0} (limit now : ℕ) (others : List AgentMediaItem) (w : Work C) where
  abbrev chosen : AgentMediaItem → Bool
  chosen = is_listed (due_items limit now (others ++ w.items))

  IsEmptied-rows :
      All
        (λ (i : AgentMediaItem). chosen i ≡ true → IsEmptied now i)
        (update chosen (purged_item now) w.items)
  IsEmptied-rows =
      All-update_to (λ (i : AgentMediaItem). Unit {0})
        (λ (i : AgentMediaItem). chosen i ≡ true → IsEmptied now i) chosen (purged_item now) w.items
        (λ i _. elim (Bool-cases (chosen i)) [
          | inl e ↦ rw e (λ _. (refl, refl, refl, refl, refl))
          | inr e ↦ rw e (λ t. cc (e, t))
        ])
        (All-of (λ (i : AgentMediaItem). Unit {0}) w.items (λ i. tt))

  left_rows :
      All
        (λ (i : AgentMediaItem).
          IsDue now i → IsBehind limit (due_items limit now (others ++ w.items)) i)
        (update chosen (purged_item now) w.items)
  left_rows =
      let items = due_items limit now (others ++ w.items) in
      let P = λ (i : AgentMediaItem).
        is_purge_due now i ≡ true → (chosen i ≡ true) ⊎ IsBehind limit items i in
      let Q = λ (i : AgentMediaItem). IsDue now i → IsBehind limit items i in
      All-update_to P Q chosen (purged_item now) w.items
        (λ i h. elim (Bool-cases (chosen i)) [
          | inl e ↦ rw e (λ due. cc (due.0))
          | inr e ↦ rw e (λ due. elim (h (IsDue-is_purge_due now i due)) [
            | inl taken ↦ cc (e, taken)
            | inr behind ↦ behind
          ])
        ])
        (All-append_right P others w.items (due_or_IsBehind limit now (others ++ w.items)))

  -- Nothing of the batch was taken: the rows are as they were.
  none_taken :
      (items : List AgentMediaItem)
      → any chosen items ≡ false
      → update chosen (purged_item now) items ≡ items
  unfolding any update
  none_taken [] h = refl
  none_taken (x ∷ items) h =
      let off : chosen x ≡ false = ground (arith, h) in
      rw off (ap (λ rest. x ∷ rest) (none_taken items (ground (arith, h))))

  taken-bounded : length (due_items limit now (others ++ w.items)) ≤ limit
  unfolding due_items
  taken-bounded =
      take_first-length limit (sorted due_first (select (is_purge_due now) (others ++ w.items)))

  taken-IsDue : All (IsDue now) (due_items limit now (others ++ w.items))
  unfolding due_items
  taken-IsDue =
      let table = select (is_purge_due now) (others ++ w.items) in
      All-take_first (IsDue now) limit (sorted due_first table) (
        All-sorted (IsDue now) due_first table (
          All-imp table (is_purge_due-IsDue now)
            (All-select_self (is_purge_due now) (others ++ w.items))))

  -- The rows of the items after the purge make all of it but the dispatch.
  updated-IsPurged :
      (v : Work C)
      → v.items ≡ update chosen (purged_item now) w.items
      → (any chosen w.items ≡ true
          → (v.dispatch.payload ≡ redacted w.batch.batch_id)
            × (v.dispatch.raw_output ≡ none)
            × ((is_terminal v.dispatch.state ≡ true)
                ⊎ (v.dispatch.state ≡ AgentDispatchState.cancel_requested)))
      → IsPurged limit now others w v
  updated-IsPurged v rows told = record {
    bounded = taken-bounded;
    due = taken-IsDue;
    emptied = rw rows IsEmptied-rows;
    kept = rw rows (All-update_kept chosen (purged_item now) w.items);
    left_over = rw rows left_rows;
    redacted_dispatch = told;
  }

  -- A purge takes at most `limit` items, and due ones only. Each taken item of the batch has lost its
  -- content, and the other items are as they were. A due item of the batch is left over only if the limit
  -- was reached by items that come before it, by their time and then their key. If an item of the batch
  -- was taken, the payload of the dispatch is the redacted one, its output is gone, and its state is
  -- terminal or a requested cancellation.
  pub purge-IsPurged : IsPurged limit now others w (purge_due_agent_media limit now others w)
  unfolding purge_due_agent_media purge_chosen redacted_work
  purge-IsPurged =
      if_cases (IsPurged limit now others w) (any chosen w.items) {x = redacted_work chosen now w}
        {y = w}
        (λ _.
          if_cases (IsPurged limit now others w) (is_terminal w.dispatch.state)
            {x = redacted_rows chosen now w} {y = cancelling_rows chosen now w}
            (λ ended. updated-IsPurged _ refl (λ _. (refl, refl, inl ended)))
            (λ _. updated-IsPurged _ refl (λ _. (refl, refl, inr refl))))
        (λ quiet. updated-IsPurged w (sym (none_taken w.items quiet)) (λ due. cc (quiet, due)))
