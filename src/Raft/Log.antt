-- ===== src/Raft/Log.antt =====
-- A follower's log after an AppendEntries message.
use mini_distributed_computi.Prelude.{
  ℕ, zero, suc, ◌+◌, ◌-◌, ◌≤◌, ◌<◌, ◌≡◌, inl, inr, refl, sym, ◌∙◌, ap, true, false, List, [], ◌∷◌,
  ◌++◌, length, take, get_or, get_or-take, length-take, length-append, get_or-append_mid, leb, ltb,
  arith, Bool-cases, ◌==◌, ==_iff,
}
use mini_distributed_computi.Raft.Types.{
  LogEntry, no_entry, AppendEntriesArgs, max_log_entries, term_at,
}
use mini_distributed_computi.Raft.Replication.{
  cut_conflict, write_entry, no_room, append_loop, receive_entries, too_short, mismatch,
}

-- the log after one turn of the loop
abbrev pub stored : List LogEntry → ℕ → LogEntry → List LogEntry
stored log index e = write_entry (cut_conflict log index e) index e

-- What one turn does with the entry for index `k + 1`.
pub record Turn (log : List LogEntry) (k : ℕ) (e : LogEntry) (new : List LogEntry) : Type 0 where
  pub before : take k new ≡ take k log
  pub long : k < length new
  pub bounded : length new ≤ max_log_entries
  pub here_term : term_at new (suc k) ≡ e.term

take-take : {A : Type 0} (k : ℕ) (xs : List A) → take k (take k xs) ≡ take k xs
take-take zero xs = refl
take-take (suc k) [] = refl
take-take (suc k) (x ∷ xs) = ap (◌∷◌ x) (take-take k xs)

take-append : {A : Type 0} (k : ℕ) (xs ys : List A) → k ≤ length xs → take k (xs ++ ys) ≡ take k xs
take-append zero xs ys h = refl
take-append (suc k) [] ys h = absurd (omega arith)
take-append (suc k) (x ∷ xs) ys h = ap (◌∷◌ x) (take-append k xs ys (omega arith))

pred_suc : (k : ℕ) → suc k - 1 ≡ k
pred_suc k = omega arith

term_at-suc : (log : List LogEntry) (k : ℕ) → term_at log (suc k) ≡ (get_or log k no_entry).term
term_at-suc log k = ap (λ i. (get_or log i no_entry).term) (pred_suc k)

-- at the end of the log
Turn-append :
    (log : List LogEntry) (k : ℕ) (e : LogEntry)
    → k ≡ length log
    → k < max_log_entries
    → Turn log k e (log ++ (e ∷ []))
Turn-append log k e end room = record {
  before = take-append k log (e ∷ []) (omega arith);
  long = omega (arith, length-append log (e ∷ []));
  bounded = omega (arith, length-append log (e ∷ []));
  here_term =
      term_at-suc (log ++ (e ∷ [])) k
      ∙ ap (λ x. x.term) (get_or-append_mid log e [] k no_entry end);
}

pub Turn-stored :
    (log : List LogEntry) (k : ℕ) (e : LogEntry)
    → k ≤ length log
    → length log ≤ max_log_entries
    → k < max_log_entries
    → Turn log k e (stored log (suc k) e)
Turn-stored log k e fits bound room = elim (Bool-cases (leb (suc k) (length log))) [
  | inr beyond ↦
      let past : ltb (length log) (suc k) ≡ true = ground arith in
      rw (beyond, past) (Turn-append log k e (ground arith) room)
  | inl inside ↦ elim (Bool-cases (term_at log (suc k) == e.term)) [
    | inl same ↦
        let within : ltb (length log) (suc k) ≡ false = ground arith in
        rw (inside, same, within)
          (record { before = refl; long = ground arith; bounded = bound; here_term = ground arith })
    | inr conflict ↦
        let len : length (take k log) ≡ k = omega (arith, length-take k log) in
        let past : ltb (length (take k log)) (suc k) ≡ true = ground arith in
        let turn = Turn-append (take k log) k e (sym len) room in
        rw (inside, conflict, pred_suc k, past)
          (record {
            before = turn.before ∙ take-take k log;
            long = turn.long;
            bounded = turn.bounded;
            here_term = turn.here_term;
          })
  ]
]

-- `append_loop` one turn further
pub append_loop-step :
    (log : List LogEntry) (k : ℕ) (e : LogEntry) (es : List LogEntry)
    → k < max_log_entries
    → append_loop log (suc k) (e ∷ es) ≡ append_loop (stored log (suc k) e) (suc (suc k)) es
unfolding append_loop
append_loop-step log k e es room = rw (never_full (cut_conflict log (suc k) e)) refl
  where
    never_full : (cut : List LogEntry) → no_room cut (suc k) ≡ false
    never_full cut = ground arith

-- The entries of `log` behind index `k` start with the terms of `es`.
abbrev pub SameTerms : List LogEntry → ℕ → List LogEntry → Type 0
SameTerms log k es =
    (i : ℕ) → i < length es → (get_or log (k + i) no_entry).term ≡ (get_or es i no_entry).term

module _ (log : List LogEntry) (k : ℕ) (e : LogEntry) (es : List LogEntry) where
  zero_right : k + 0 ≡ k
  zero_right = omega arith

  suc_right : (j : ℕ) → k + suc j ≡ suc k + j
  suc_right j = omega arith

  SameTerms-cons :
      (get_or log k no_entry).term ≡ e.term → SameTerms log (suc k) es → SameTerms log k (e ∷ es)
  SameTerms-cons h rest zero lt = rw zero_right h
  SameTerms-cons h rest (suc j) lt = rw (suc_right j) (rest j (omega arith))

  SameTerms-head : SameTerms log k (e ∷ es) → (get_or log k no_entry).term ≡ e.term
  SameTerms-head h = ap (λ i. (get_or log i no_entry).term) (sym zero_right) ∙ h 0 (omega arith)

  SameTerms-tail : SameTerms log k (e ∷ es) → SameTerms log (suc k) es
  SameTerms-tail h j lt =
      ap (λ i. (get_or log i no_entry).term) (sym (suc_right j)) ∙ h (suc j) (omega arith)

-- What the log `new` keeps of `log`, and that it has the entries `es` behind index `k`.
pub record Stored (log : List LogEntry) (k : ℕ) (es new : List LogEntry) : Type 0 where
  pub kept : take k new ≡ take k log
  pub long : k + length es ≤ length new
  pub bounded : length new ≤ max_log_entries
  pub terms : SameTerms new k es

take-take-suc : {A : Type 0} (k : ℕ) (xs : List A) → take k (take (suc k) xs) ≡ take k xs
take-take-suc zero xs = refl
take-take-suc (suc k) [] = refl
take-take-suc (suc k) (x ∷ xs) = ap (◌∷◌ x) (take-take-suc k xs)

-- equal first entries give equal entries
get_or-same_take :
    (k : ℕ) (xs ys : List LogEntry)
    → take (suc k) xs ≡ take (suc k) ys
    → get_or xs k no_entry ≡ get_or ys k no_entry
get_or-same_take k xs ys e =
    sym (get_or-take (suc k) xs k no_entry (omega arith))
    ∙ ap (λ zs. get_or zs k no_entry) e
    ∙ get_or-take (suc k) ys k no_entry (omega arith)

pub append_loop-Stored :
    (log : List LogEntry) (k : ℕ) (es : List LogEntry)
    → k ≤ length log
    → length log ≤ max_log_entries
    → k + length es ≤ max_log_entries
    → Stored log k es (append_loop log (suc k) es)
unfolding append_loop
append_loop-Stored log k [] fits bound room = record {
  kept = refl;
  long = omega arith;
  bounded = bound;
  terms = λ i lt. absurd (omega arith);
}
append_loop-Stored log k (e ∷ es) fits bound room =
    let turn = Turn-stored log k e fits bound (omega arith) in
    let rest =
      append_loop-Stored (stored log (suc k) e) (suc k) es turn.long turn.bounded (omega arith) in
    rw (append_loop-step log k e es (omega arith)) (record {
      kept = sym (take-take-suc k _) ∙ ap (take k) rest.kept ∙ take-take-suc k _ ∙ turn.before;
      long = omega (arith, rest.long);
      bounded = rest.bounded;
      terms =
          SameTerms-cons _ k e es
            (ap (λ x. x.term) (get_or-same_take k _ _ rest.kept)
              ∙ sym (term_at-suc (stored log (suc k) e) k)
              ∙ turn.here_term)
            rest.terms;
    })

-- The loop leaves a log that has the entries as it is.
append_loop-same :
    (log : List LogEntry) (k : ℕ) (es : List LogEntry)
    → k + length es ≤ length log
    → length log ≤ max_log_entries
    → SameTerms log k es
    → append_loop log (suc k) es ≡ log
unfolding append_loop
append_loop-same log k [] fits bound terms = refl
append_loop-same log k (e ∷ es) fits bound terms =
    append_loop-step log k e es (omega arith)
    ∙ ap (λ l. append_loop l (suc (suc k)) es) unchanged
    ∙ append_loop-same log (suc k) es (omega arith) bound (SameTerms-tail log k e es terms)
  where
    unchanged : stored log (suc k) e ≡ log
    unchanged =
        let inside : leb (suc k) (length log) ≡ true = ground arith in
        let same : (term_at log (suc k) == e.term) ≡ true =
          (==_iff (term_at log (suc k)) e.term).1
            (term_at-suc log k ∙ SameTerms-head log k e es terms) in
        let within : ltb (length log) (suc k) ≡ false = ground arith in
        rw (inside, same, within) refl

-- The loop run twice is the loop run once.
pub append_loop-twice :
    (log : List LogEntry) (k : ℕ) (es : List LogEntry)
    → k ≤ length log
    → length log ≤ max_log_entries
    → k + length es ≤ max_log_entries
    → append_loop (append_loop log (suc k) es) (suc k) es ≡ append_loop log (suc k) es
append_loop-twice log k es fits bound room =
    let done = append_loop-Stored log k es fits bound room in
    append_loop-same _ k es done.long done.bounded done.terms

-- The three outcomes of rules 2 to 5.
pub receive_entries-cases :
    (log : List LogEntry) (commit : ℕ) (args : AppendEntriesArgs)
    → (receive_entries log commit args).0 ≡ true
    → (args.prev_log_index ≤ length log)
      × ((receive_entries log commit args).1
          ≡ append_loop log (suc args.prev_log_index) args.entries)
unfolding receive_entries
receive_entries-cases log commit args = elim (Bool-cases (too_short log args.prev_log_index)) [
  | inl short ↦ rw short (λ e. absurd (ground arith))
  | inr long ↦ elim (Bool-cases (mismatch log args)) [
    | inl bad ↦ rw (long, bad) (λ e. absurd (ground arith))
    | inr good ↦ rw (long, good, next args.prev_log_index) (λ _. (ground arith, refl))
  ]
]
  where
    next : (k : ℕ) → k + 1 ≡ suc k
    next k = omega arith
