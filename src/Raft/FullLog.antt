-- ===== src/Raft/FullLog.antt =====
-- An AppendEntries message with more entries than the follower's log has room for.
use mini_distributed_computi.Prelude.{
  ℕ, zero, suc, ◌+◌, ◌-◌, ◌≤◌, ◌≡◌, refl, sym, ◌∙◌, ap, subst, true, false, List, [], ◌∷◌, length,
  take, length-take, leb, arith, dec_lt,
}
use mini_distributed_computi.Raft.Types.{LogEntry, Server, AppendEntriesArgs, max_log_entries}
use mini_distributed_computi.Raft.Replication.{no_room, append_loop, handle_append_entries}
use mini_distributed_computi.Raft.Log.{
  Stored, stored, Turn-stored, append_loop-step, append_loop-Stored, receive_entries-cases,
}
use mini_distributed_computi.Raft.Follower.{handle_append_entries-success}

take-nil : {A : Type 0} (n : ℕ) → take {A = A} n [] ≡ []
take-nil zero = refl
take-nil (suc n) = refl

-- The loop stops behind the last place of the log.
append_loop-full :
    (log : List LogEntry) (e : LogEntry) (es : List LogEntry)
    → length log ≡ max_log_entries
    → append_loop log (suc max_log_entries) (e ∷ es) ≡ log
unfolding append_loop
append_loop-full log e es full =
    let beyond : leb (suc max_log_entries) (length log) ≡ false = ground arith in
    let past : no_room log (suc max_log_entries) ≡ true = ground arith in rw (beyond, past) refl

-- The loop drops the entries that are behind the last place.
append_loop-prefix :
    (log : List LogEntry) (k : ℕ) (es : List LogEntry)
    → k ≤ length log
    → length log ≤ max_log_entries
    → append_loop log (suc k) es ≡ append_loop log (suc k) (take (max_log_entries - k) es)
unfolding append_loop
append_loop-prefix log k [] fits bound =
    ap (append_loop log (suc k)) (sym (take-nil (max_log_entries - k)))
append_loop-prefix log k (e ∷ es) fits bound = elim (dec_lt k max_log_entries) [
  | yes room ↦
      let turn = Turn-stored log k e fits bound room in
      let more : suc (max_log_entries - suc k) ≡ max_log_entries - k = omega arith in
      append_loop-step log k e es room
      ∙ append_loop-prefix (stored log (suc k) e) (suc k) es turn.long turn.bounded
      ∙ sym (append_loop-step log k e (take (max_log_entries - suc k) es) room)
      ∙ ap (λ n. append_loop log (suc k) (take n (e ∷ es))) more
  | no over ↦
      let at_end : max_log_entries ≡ k = omega arith in
      subst
        (λ m.
          append_loop log (suc m) (e ∷ es)
          ≡ append_loop log (suc m) (take (max_log_entries - m) (e ∷ es)))
        at_end (append_loop-full log e es (omega arith))
]

-- When a follower whose log is within its bound answers an AppendEntries message with success, then
-- its log keeps what it had up to `prev_log_index`, is within its bound, and has entries of the
-- terms of the message's entries behind that, in their order, up to its 256th entry: the entries of
-- the message that would be beyond it are dropped.
pub handle_append_entries-Stored :
    (s : Server) (args : AppendEntriesArgs)
    → length s.log ≤ max_log_entries
    → (handle_append_entries s args).1.success ≡ true
    → Stored s.log args.prev_log_index
        (take (max_log_entries - args.prev_log_index) args.entries)
        (handle_append_entries s args).0.log
handle_append_entries-Stored s args bound good =
    let (_, went, log) = handle_append_entries-success s args good in
    let (fits, loop) = receive_entries-cases s.log _ args went in
    let prefix = take (max_log_entries - args.prev_log_index) args.entries in
    let room : args.prev_log_index + length prefix ≤ max_log_entries =
      omega (arith, length-take (max_log_entries - args.prev_log_index) args.entries) in
    subst (Stored s.log args.prev_log_index prefix)
      (sym (log ∙ loop ∙ append_loop-prefix s.log args.prev_log_index args.entries fits bound))
      (append_loop-Stored s.log args.prev_log_index prefix fits bound room)
