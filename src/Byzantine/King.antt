-- ===== src/Byzantine/King.antt =====
-- The phase king protocol of src/phase_protocols.c. The array of processes is a list of those in
-- use, and so is the schedule of kings. A step reads estimates only before it writes them, so its
-- loops over the processes are maps. `phase_king_step` returns 1 where this returns `true`.
use mini_distributed_computi.Prelude.{
  ℕ, zero, suc, ◌+◌, ◌*◌, ◌/◌, ◌%◌, ◌^◌, ltb, leb, if◌then◌else◌, Bool, true, false, ◌&&◌, ◌||◌,
  not, List, [], ◌∷◌, map, get_or, set, replicate, Option, none, some, ℤ, pos, minus_one, nonneg,
  pos_part, eqb_ℤ,
}

-- BA_MAX_PROCESSES
abbrev pub max_processes : ℕ
max_processes = 16

-- BA_MAX_VALUES
abbrev pub max_values : ℕ
max_values = 16

-- `phase_king_process_t`
pub record Process : Type 0 where
  pub pid : ℕ
  pub estimate : ℤ
  pub phase : ℕ
  pub round_in_phase : ℕ
  pub votes : List ℕ
  pub num_votes : ℕ
  pub king_value : ℤ
  pub has_decided : Bool
  pub decision : ℤ

-- `phase_king_system_t`
pub record System : Type 0 where
  pub n : ℕ
  pub f : ℕ
  pub current_phase : ℕ
  pub processes : List Process
  pub king_schedule : List ℕ
  pub agreement_reached : Bool

-- the kings of the phases `k`, `k + 1`, …, of which `left` are left
unfoldable pub schedule : ℕ → ℕ → ℕ → List ℕ
schedule n zero k = []
schedule n (suc left) k = (k % n) ∷ schedule n left (suc k)

abbrev pub value_of : Option (List ℤ) → ℕ → ℤ
value_of none i = pos 0
value_of (some values) i = get_or values i (pos 0)

abbrev pub new_process : Option (List ℤ) → ℕ → Process
new_process values i = record {
  pid = i;
  estimate = value_of values i;
  phase = 0;
  round_in_phase = 0;
  votes = replicate max_values 0;
  num_votes = 0;
  king_value = minus_one;
  has_decided = false;
  decision = minus_one;
}

-- the processes `i`, `i + 1`, …, of which `left` are left
unfoldable pub new_processes : Option (List ℤ) → ℕ → ℕ → List Process
new_processes values zero i = []
new_processes values (suc left) i = new_process values i ∷ new_processes values left (suc i)

-- the checks of `phase_king_init`, where `4 * f` is an `int32_t`, read here modulo 2 ^ 32: from
-- 2 ^ 31 on it is negative
abbrev pub accepts_sizes : ℤ → ℤ → Bool
accepts_sizes n f =
    nonneg n
    && not (ltb (pos_part n) 1)
    && leb (pos_part n) max_processes
    && nonneg f
    && (leb (2 ^ 31) (4 * pos_part f % 2 ^ 32) || ltb (4 * pos_part f % 2 ^ 32) (pos_part n))

-- `phase_king_init`, which leaves `faults` unread; `none` where it returns -1
unfoldable pub init : ℤ → ℤ → Option (List ℤ) → Option System
unfolding schedule new_processes
init n f values =
    if accepts_sizes n f
    then some (record {
      n = pos_part n;
      f = pos_part f;
      current_phase = 0;
      processes = new_processes values (pos_part n) 0;
      king_schedule = schedule (pos_part n) (pos_part f + 1) 0;
      agreement_reached = false;
    })
    else none

-- `val >= 0 && val < BA_MAX_VALUES`
abbrev pub counts : ℤ → Bool
counts v = nonneg v && ltb (pos_part v) max_values

-- the votes and their number, after the estimates of the senders `ps`
unfoldable pub collect : List Process → List ℕ → ℕ → List ℕ × ℕ
collect [] votes num = (votes, num)
collect (p ∷ ps) votes num =
    let v = pos_part p.estimate in
    if counts p.estimate
    then collect ps (set votes v (get_or votes v 0 + 1)) (num + 1)
    else collect ps votes num

-- round 1 of a phase, for one process
abbrev pub count_votes : List Process → Process → Process
count_votes ps p = record p {
  votes = (collect ps (replicate max_values 0) 0).0;
  num_votes = (collect ps (replicate max_values 0) 0).1;
}

-- the first value `v`, `v + 1`, … with more than `threshold` votes
unfoldable pub find_majority : List ℕ → ℕ → ℕ → Option ℕ
find_majority [] threshold v = none
find_majority (c ∷ cs) threshold v =
    let rest = find_majority cs threshold (suc v) in if ltb threshold c then some v else rest

abbrev pub adopt : Option ℕ → ℤ → ℤ
adopt none king_value = king_value
adopt (some v) king_value = pos v

-- round 2 of a phase, for one process
abbrev pub follow : ℕ → ℤ → Process → Process
follow threshold king_value p = record p {
  king_value = king_value;
  estimate = adopt (find_majority p.votes threshold 0) king_value;
}

abbrev pub decide : Process → Process
decide p = record p { has_decided = true; decision = p.estimate }

-- the estimate of a process
abbrev pub estimate_of : List Process → ℕ → ℤ
estimate_of [] i = pos 0
estimate_of (p ∷ ps) zero = p.estimate
estimate_of (p ∷ ps) (suc i) = estimate_of ps i

-- both rounds of a phase
unfoldable pub rounds : System → List Process
unfolding collect find_majority
rounds s =
    let voted = map (count_votes s.processes) s.processes in
    map (follow (s.n / 2 + s.f) (estimate_of voted (get_or s.king_schedule s.current_phase 0)))
      voted

-- `phase_king_step`
unfoldable pub step : System → Bool × System
unfolding rounds
step s =
    let ps = rounds s in
    if ltb s.f s.current_phase
    then (true, record s { agreement_reached = true })
    else if ltb s.f (s.current_phase + 1)
    then (
      true,
      record s {
        current_phase = s.current_phase + 1;
        processes = map decide ps;
        agreement_reached = true;
      },
    )
    else (false, record s { current_phase = s.current_phase + 1; processes = ps })

-- one turn of the loop of `phase_king_run`, with the result of the step and of the turns after it
abbrev pub turn : System → Bool × System → System → System
turn s r rest = if s.agreement_reached then s else (if r.0 then r.1 else rest)

-- the loop of `phase_king_run`, at most `fuel` times
unfoldable pub run_loop : ℕ → System → System
unfolding step
run_loop zero s = s
run_loop (suc fuel) s = turn s (step s) (run_loop fuel (step s).1)

-- the part of `ba_result_t` that is written
pub record Result : Type 0 where
  pub agreement_holds : Bool
  pub validity_holds : Bool
  pub termination_holds : Bool
  pub decided_value : ℤ
  pub num_rounds : ℕ

unfoldable pub all_terminated : List Process → Bool
all_terminated [] = true
all_terminated (p ∷ ps) = p.has_decided && all_terminated ps

-- no decision of the other processes differs from the first
unfoldable pub all_agree : ℤ → List Process → Bool
all_agree ref [] = true
all_agree ref (p ∷ ps) = eqb_ℤ p.decision ref && all_agree ref ps

-- `ref_decision`
abbrev pub ref_decision : List Process → ℤ
ref_decision [] = minus_one
ref_decision (p ∷ ps) = p.decision

-- `phase_king_run`, after its loop
abbrev pub report : System → Result
unfolding all_terminated all_agree
report s = record {
  agreement_holds = all_agree (ref_decision s.processes) s.processes;
  validity_holds = true;
  termination_holds = all_terminated s.processes;
  decided_value = ref_decision s.processes;
  num_rounds = s.current_phase * 2;
}

-- `phase_king_run`: there are at most `f + 2` steps
unfoldable pub run : System → Result × System
unfolding run_loop all_terminated all_agree
run s = (report (run_loop (s.f + 2) s), run_loop (s.f + 2) s)
