-- ===== src/Byzantine/BenOr.antt =====
-- The Ben-Or protocol of src/phase_protocols.c. The array of processes is a list of those in use,
-- and so are the arrays of what a process received. The state of the generator, a static variable
-- of the source, is passed on. `benor_step` returns 1 where this returns `true`.
use mini_distributed_computi.Prelude.{
  ℕ, zero, suc, ◌+◌, ◌*◌, ◌/◌, ◌%◌, ◌^◌, ltb, leb, ◌==◌, if◌then◌else◌, Bool, true, false, ◌&&◌,
  ◌||◌, not, List, [], ◌∷◌, map, take, get_or, Option, none, some, ℤ, pos, minus_one, nonneg,
  pos_part, eqb_ℤ,
}
use mini_distributed_computi.Byzantine.King.{max_processes, value_of, Result}

-- `ba_fault_type_t`
pub data FaultType : Type 0 where
  correct : FaultType
  crash_fault : FaultType
  byzantine : FaultType

-- `benor_process_t`
pub record Process : Type 0 where
  pub pid : ℕ
  pub estimate : ℤ
  pub round : ℕ
  pub recv_estimates : List ℤ
  pub recv_adoptions : List ℤ
  pub adopted_value : ℤ
  pub has_decided : Bool
  pub decision : ℤ
  pub fault_type : FaultType

-- `benor_system_t`
pub record System : Type 0 where
  pub n : ℕ
  pub f : ℕ
  pub processes : List Process
  pub max_rounds : ℕ
  pub current_round : ℕ
  pub agreement_reached : Bool
  pub coin_seed : ℕ

-- bitwise exclusive or of `w` bits
unfoldable pub xor : ℕ → ℕ → ℕ → ℕ
xor zero a b = 0
xor (suc w) a b = (a + b) % 2 + 2 * xor w (a / 2) (b / 2)

-- `xorshift64`: the new state, which is also the number drawn
unfoldable pub xorshift : ℕ → ℕ
unfolding xor
xorshift x =
    let a = xor 64 x (x * 2 ^ 13 % 2 ^ 64) in
    let b = xor 64 a (a / 2 ^ 7) in xor 64 b (b * 2 ^ 17 % 2 ^ 64)

abbrev pub fault_of : Option (List FaultType) → ℕ → FaultType
fault_of none i = correct
fault_of (some faults) i = get_or faults i correct

abbrev pub new_process : Option (List ℤ) → Option (List FaultType) → ℕ → Process
new_process values faults i = record {
  pid = i;
  estimate = value_of values i;
  round = 0;
  recv_estimates = [];
  recv_adoptions = [];
  adopted_value = minus_one;
  has_decided = false;
  decision = minus_one;
  fault_type = fault_of faults i;
}

-- the processes `i`, `i + 1`, …, of which `left` are left
unfoldable pub new_processes : Option (List ℤ) → Option (List FaultType) → ℕ → ℕ → List Process
new_processes values faults zero i = []
new_processes values faults (suc left) i =
    new_process values faults i ∷ new_processes values faults left (suc i)

-- `benor_init`: the system and the state of the generator; `none` where it returns -1
unfoldable pub init : ℤ → ℤ → Option (List ℤ) → Option (List FaultType) → ℕ → Option (System × ℕ)
unfolding new_processes
init n f values faults seed =
    if nonneg n && not (ltb (pos_part n) 1) && leb (pos_part n) max_processes && nonneg f
    then some (
      record {
        n = pos_part n;
        f = pos_part f;
        processes = new_processes values faults (pos_part n) 0;
        max_rounds = 100;
        current_round = 0;
        agreement_reached = false;
        coin_seed = seed;
      },
      seed,
    )
    else none

abbrev pub is_correct : FaultType → Bool
is_correct correct = true
is_correct crash_fault = false
is_correct byzantine = false

-- what process number `i` sends as its estimate; `none` after a crash
abbrev pub estimate_from : ℕ → Process → FaultType → Option ℤ
estimate_from i p crash_fault = none
estimate_from i p byzantine = some (if i % 2 == 0 then pos 0 else pos 1)
estimate_from i p correct = some p.estimate

-- what process number `i` sends as the value that it adopted
abbrev pub adoption_from : ℕ → Process → FaultType → Option ℤ
adoption_from i p crash_fault = none
adoption_from i p byzantine = some (if i % 3 == 0 then minus_one else pos (i % 2))
adoption_from i p correct = some p.adopted_value

abbrev pub add_message : Option ℤ → List ℤ → List ℤ
add_message none messages = messages
add_message (some v) messages = v ∷ messages

-- what the senders `i`, `i + 1`, … send
unfoldable pub estimates : List Process → ℕ → List ℤ
estimates [] i = []
estimates (p ∷ ps) i = add_message (estimate_from i p p.fault_type) (estimates ps (suc i))

unfoldable pub adoptions : List Process → ℕ → List ℤ
adoptions [] i = []
adoptions (p ∷ ps) i = add_message (adoption_from i p p.fault_type) (adoptions ps (suc i))

-- the messages with the value `v`
unfoldable pub count_of : ℤ → List ℤ → ℕ
count_of v [] = 0
count_of v (x ∷ xs) = (if eqb_ℤ x v then 1 else 0) + count_of v xs

-- the value of more than `threshold` messages, or -1
abbrev pub majority_of : ℕ → List ℤ → ℤ
majority_of threshold messages =
    if ltb threshold (count_of (pos 0) messages)
    then pos 0
    else (if ltb threshold (count_of (pos 1) messages) then pos 1 else minus_one)

-- phase 1, for one process
abbrev pub exchange : ℕ → List ℤ → Process → Process
exchange n messages p =
    if is_correct p.fault_type
    then record p { recv_estimates = messages; adopted_value = majority_of (n / 2) messages }
    else p

-- phase 2, for one process
abbrev pub receive : List ℤ → Process → Process
receive messages p = if is_correct p.fault_type then record p { recv_adoptions = messages } else p

-- `count >= f + 1`, where `f + 1` is an `int32_t`, read here modulo 2 ^ 32: from 2 ^ 31 on it is
-- negative
abbrev pub reaches : ℕ → ℕ → Bool
reaches f count = leb (2 ^ 31) ((f + 1) % 2 ^ 32) || leb ((f + 1) % 2 ^ 32) count

-- the value that is decided
abbrev pub verdict : ℕ → ℕ → ℕ → Option ℕ
verdict f zeros ones = if reaches f zeros then some 0 else (if reaches f ones then some 1 else none)

-- the value that is taken over without a decision
abbrev pub lean : ℕ → ℕ → Option ℕ
lean zeros ones =
    if ltb 0 zeros && ones == 0 then some 0 else (if ltb 0 ones && zeros == 0 then some 1 else none)

-- the process, and the state of the generator
abbrev pub settle : Option ℕ → Option ℕ → ℕ → Process → ℕ → Process × ℕ
settle (some v) o r p coin =
    (record p { has_decided = true; decision = pos v; estimate = pos v; round = r + 1 }, coin)
settle none (some v) r p coin = (record p { estimate = pos v; round = r + 1 }, coin)
settle none none r p coin =
    (record p { estimate = pos (xorshift coin % 2); round = r + 1 }, xorshift coin)

abbrev pub settle_with : ℕ → ℕ → ℕ → ℕ → Process → ℕ → Process × ℕ
settle_with f zeros ones r p coin = settle (verdict f zeros ones) (lean zeros ones) r p coin

-- what the decision loop of `benor_step` has
pub record Tally : Type 0 where
  pub processes : List Process
  pub coin : ℕ
  pub all_decided : ℕ
  pub total_correct : ℕ

abbrev pub decides : Option ℕ → ℕ
decides none = 0
decides (some v) = 1

-- the decision loop over the processes that are left
unfoldable pub decide_loop : ℕ → ℕ → List Process → ℕ → Tally
unfolding count_of xorshift
decide_loop f r [] coin = record { processes = []; coin = coin; all_decided = 0; total_correct = 0 }
decide_loop f r (p ∷ ps) coin =
    let zeros = count_of (pos 0) p.recv_adoptions in
    let ones = count_of (pos 1) p.recv_adoptions in
    let (q, coin') = settle_with f zeros ones r p coin in
    let after = decide_loop f r ps coin' in
    let skipped = decide_loop f r ps coin in
    if is_correct p.fault_type
    then record {
      processes = q ∷ after.processes;
      coin = after.coin;
      all_decided = decides (verdict f zeros ones) + after.all_decided;
      total_correct = 1 + after.total_correct;
    }
    else record {
      processes = p ∷ skipped.processes;
      coin = skipped.coin;
      all_decided = skipped.all_decided;
      total_correct = skipped.total_correct;
    }

-- the processes after both exchanges of a round
unfoldable pub exchanged : ℕ → List Process → List Process
unfolding estimates adoptions count_of
exchanged n ps =
    let first = map (exchange n (take max_processes (estimates ps 0))) ps in
    map (receive (take max_processes (adoptions first 0))) first

abbrev pub end_round : System → Tally → Bool × System
end_round s o = (
  leb o.total_correct o.all_decided,
  record s {
    processes = o.processes;
    current_round = s.current_round + 1;
    agreement_reached = leb o.total_correct o.all_decided;
  },
)

-- `benor_step`, with the state of the generator
unfoldable pub step : System → ℕ → (Bool × System) × ℕ
unfolding exchanged decide_loop
step s coin =
    let o = decide_loop s.f s.current_round (exchanged s.n s.processes) coin in
    if s.agreement_reached
    then ((true, s), coin)
    else if leb s.max_rounds s.current_round
    then ((true, record s { agreement_reached = true }), coin)
    else (end_round s o, o.coin)

-- one turn of the loop of `benor_run`, with the result of the step and of the turns after it
abbrev pub turn : System → ℕ → (Bool × System) × ℕ → System × ℕ → System × ℕ
turn s coin r rest =
    if not s.agreement_reached && ltb s.current_round s.max_rounds
    then (if r.0.0 then (r.0.1, r.1) else rest)
    else (s, coin)

-- the loop of `benor_run`, at most `fuel` times
unfoldable pub run_loop : ℕ → System → ℕ → System × ℕ
unfolding step
run_loop zero s coin = (s, coin)
run_loop (suc fuel) s coin =
    turn s coin (step s coin) (run_loop fuel (step s coin).0.1 (step s coin).1)

-- the decision of the first correct process
unfoldable pub ref_val : List Process → ℤ
ref_val [] = minus_one
ref_val (p ∷ ps) = let rest = ref_val ps in if is_correct p.fault_type then p.decision else rest

unfoldable pub terminated : List Process → Bool
terminated [] = true
terminated (p ∷ ps) = (if is_correct p.fault_type then p.has_decided else true) && terminated ps

unfoldable pub agreed : ℤ → List Process → Bool
agreed ref [] = true
agreed ref (p ∷ ps) =
    (if is_correct p.fault_type then eqb_ℤ p.decision ref else true) && agreed ref ps

-- `benor_run`, after its loop
abbrev pub report : System → Result
unfolding ref_val terminated agreed
report s = record {
  agreement_holds = agreed (ref_val s.processes) s.processes;
  validity_holds = true;
  termination_holds = terminated s.processes;
  decided_value = ref_val s.processes;
  num_rounds = s.current_round;
}

-- `benor_run`: each step counts one of the `max_rounds` rounds
unfoldable pub run : System → ℕ → Result × System
unfolding run_loop ref_val terminated agreed
run s coin = (report (run_loop (s.max_rounds + 1) s coin).0, (run_loop (s.max_rounds + 1) s coin).0)
