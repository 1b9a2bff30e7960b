-- ===== src/Raft/Replicate.antt =====
-- One exchange of the log: the message that a leader prepares, as a follower handles it.
use mini_distributed_computi.Prelude.{
  ℕ, zero, suc, ◌-◌, ◌≤◌, ◌<◌, ◌≡◌, refl, sym, ap, subst, true, false, inl, inr, List, [], ◌∷◌,
  length, take, drop, get_or, leb, ltb, arith, ==_iff, Bool-cases, some, ◌==◌, ◌&&◌,
}
use mini_distributed_computi.Raft.Types.{
  Server, AppendEntriesArgs, max_log_entries, is_leader, term_at,
}
use mini_distributed_computi.Raft.Replication.{
  prev_term, prepare_append_entries, receive_entries, too_short, mismatch, handle_append_entries,
}
use mini_distributed_computi.Raft.Log.{Stored}
use mini_distributed_computi.Raft.Advances.{IsBounded}
use mini_distributed_computi.Raft.Follower.{observe_term-log, handle_append_entries-fits}

length-drop : {A : Type 0} (n : ℕ) (xs : List A) → length (drop n xs) ≡ length xs - n
length-drop zero xs = omega arith
length-drop (suc n) [] = omega arith
length-drop (suc n) (x ∷ xs) = omega (arith, length-drop n xs)

take-all : {A : Type 0} (n : ℕ) (xs : List A) → length xs ≤ n → take n xs ≡ xs
take-all zero [] le = refl
take-all zero (x ∷ xs) le = absurd (omega arith)
take-all (suc n) [] le = refl
take-all (suc n) (x ∷ xs) le = ap (◌∷◌ x) (take-all n xs (omega arith))

-- what `raft_prepare_append_entries` sends when index `k` is the one before the first entry
abbrev message : Server → ℕ → AppendEntriesArgs
message s k = record {
  term = s.current_term;
  leader_id = s.node_id;
  prev_log_index = k;
  prev_log_term = prev_term s.log k;
  entries = drop k s.log;
  leader_commit = s.commit_index;
}

prepare_append_entries-message :
    (s : Server) (to : ℕ) (args : AppendEntriesArgs)
    → length s.log ≤ max_log_entries
    → prepare_append_entries s to ≡ some args
    → (k : ℕ) × (args ≡ message s k)
unfolding prepare_append_entries
prepare_append_entries-message s to args bound = elim (Bool-cases (is_leader s.state)) [
  | inr other ↦ rw other (λ e. absurd (cc e))
  | inl leads ↦
      let k = get_or s.next_index to 0 - 1 in
      rw (leads, take-all max_log_entries (drop k s.log) (omega (arith, length-drop k s.log)))
        (λ e. (k, cc e))
]

-- A follower of no later term that has the entry before the sent ones answers with success.
handle_append_entries-accepts :
    (f : Server) (args : AppendEntriesArgs)
    → f.current_term ≤ args.term
    → args.prev_log_index ≤ length f.log
    → (0 < args.prev_log_index → term_at f.log args.prev_log_index ≡ args.prev_log_term)
    → (handle_append_entries f args).1.success ≡ true
unfolding handle_append_entries receive_entries
handle_append_entries-accepts f args new fits agree =
    let current : ltb args.term f.current_term ≡ false = ground arith in
    let long : too_short f.log args.prev_log_index ≡ false = ground arith in
    rw (current, observe_term-log f args.term, long, no_mismatch) refl
  where
    no_mismatch : mismatch f.log args ≡ false
    no_mismatch = elim (Bool-cases (ltb 0 args.prev_log_index)) [
      | inr zero_index ↦ rw zero_index refl
      | inl some_index ↦
          let same : (term_at f.log args.prev_log_index == args.prev_log_term) ≡ true =
            (==_iff (term_at f.log args.prev_log_index) args.prev_log_term).1
              (agree (ground arith)) in
          rw (some_index, same) refl
    ]

-- `f` handles the message with success and stores what the log of `s` has behind it.
module _ (s f : Server) where
  abbrev Copies : AppendEntriesArgs → Type 0
  Copies args =
      ((handle_append_entries f args).1.success ≡ true)
      × Stored f.log args.prev_log_index (drop args.prev_log_index s.log)
          (handle_append_entries f args).0.log

  module _ (small : IsBounded s) (small' : IsBounded f)
      (old : f.current_term ≤ s.current_term) where
    message-Copies :
        (k : ℕ)
        → k ≤ length s.log
        → k ≤ length f.log
        → (0 < k → term_at f.log k ≡ term_at s.log k)
        → Copies (message s k)
    message-Copies k fits fits' agree = (good, stored)
      where
        told : 0 < k → term_at f.log k ≡ prev_term s.log k
        told some_index =
            let both : (ltb 0 k && leb k (length s.log)) ≡ true = ground arith in
            rw both (agree some_index)

        good : (handle_append_entries f (message s k)).1.success ≡ true
        good = handle_append_entries-accepts f (message s k) old fits' told

        stored : Stored f.log k (drop k s.log) (handle_append_entries f (message s k)).0.log
        stored =
            handle_append_entries-fits f (message s k) small'.log_le
              (omega (arith, length-drop k s.log, small.log_le)) good

-- A leader and a follower whose logs are within their bounds: if the follower is of no later term,
-- both logs reach up to the message's previous index, and have entries of the same term there,
-- then the follower answers the message that the leader prepares for it with success, keeps its
-- log up to this index, and has behind it entries of the terms of all the leader's entries there.
pub handle_append_entries-prepared :
    (s f : Server) (to : ℕ) (args : AppendEntriesArgs)
    → IsBounded s
    → IsBounded f
    → prepare_append_entries s to ≡ some args
    → f.current_term ≤ s.current_term
    → args.prev_log_index ≤ length s.log
    → args.prev_log_index ≤ length f.log
    → (0 < args.prev_log_index
        → term_at f.log args.prev_log_index ≡ term_at s.log args.prev_log_index)
    → ((handle_append_entries f args).1.success ≡ true)
      × Stored f.log args.prev_log_index
          (drop args.prev_log_index s.log)
          (handle_append_entries f args).0.log
handle_append_entries-prepared s f to args small small' sent old fits fits' agree =
    let (k, e) = prepare_append_entries-message s to args small.log_le sent in
    let index = ap (λ a. a.prev_log_index) e in
    subst (Copies s f) (sym e) (
      message-Copies s f small small' old k (subst (λ j. j ≤ length s.log) index fits)
        (subst (λ j. j ≤ length f.log) index fits')
        (subst (λ j. 0 < j → term_at f.log j ≡ term_at s.log j) index agree))
