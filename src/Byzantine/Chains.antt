-- ===== src/Byzantine/Chains.antt =====
-- The Dolev-Strong protocol of src/phase_protocols.c: chains of signatures, and the rounds that pass
-- them on. The arrays of signers, entries and processes are lists. `ds_step` of the source returns
-- 1 where this returns `true`.
use mini_distributed_computi.Prelude.{
  ℕ, zero, suc, ◌+◌, ◌-◌, ◌*◌, ◌/◌, ◌%◌, ◌^◌, ltb, leb, ◌==◌, if◌then◌else◌, Bool, true, false,
  ◌&&◌, ◌||◌, not, List, [], ◌∷◌, ◌++◌, length, get_or, set, elem, Option, none, some, ℤ, pos,
  negsuc, nonneg, pos_part, eqb_ℤ,
}
use mini_distributed_computi.Byzantine.King.{max_processes, value_of}
use mini_distributed_computi.Byzantine.BenOr.{
  FaultType, correct, crash_fault, byzantine, fault_of, xor,
}

-- `ds_chain_entry_t`
pub record ChainEntry : Type 0 where
  pub value : ℤ
  pub signers : List ℕ
  pub chain_hash : ℕ
  pub verified : Bool

-- `ds_system_t`, with the entries of each process and the round that its extract was updated in
pub record DsSystem : Type 0 where
  pub n : ℕ
  pub f : ℕ
  pub extracts : List (List ChainEntry)
  pub rounds_done : List ℕ
  pub fault_types : List FaultType
  pub current_round : ℕ

-- the four bytes of an `int32_t` of the word `x`
abbrev pub bytes_of : ℕ → List ℕ
bytes_of x = (x % 256) ∷ (x / 256 % 256) ∷ (x / 2 ^ 16 % 256) ∷ (x / 2 ^ 24 % 256) ∷ []

-- an `int32_t` as a word of 32 bits
abbrev pub word : ℤ → ℕ
word (pos k) = k % 2 ^ 32
word (negsuc k) = 2 ^ 32 - 1 - k % 2 ^ 32

-- `fnv1a_hash`
unfoldable pub fnv : List ℕ → ℕ → ℕ
unfolding xor
fnv [] hash = hash
fnv (b ∷ bs) hash = fnv bs (xor 64 hash b * 1099511628211 % 2 ^ 64)

-- the hash of the first signer and the value
unfoldable pub first_hash : ℕ → ℤ → ℕ
unfolding fnv
first_hash signer value = fnv (bytes_of signer ++ bytes_of (word value)) 14695981039346656037

abbrev pub new_entry : Option (List ℤ) → ℕ → ChainEntry
new_entry values i = record {
  value = value_of values i;
  signers = i ∷ [];
  chain_hash = first_hash i (value_of values i);
  verified = true;
}

-- the processes `i`, `i + 1`, …, of which `left` are left
unfoldable pub new_extracts : Option (List ℤ) → ℕ → ℕ → List (List ChainEntry)
unfolding first_hash
new_extracts values zero i = []
new_extracts values (suc left) i = (new_entry values i ∷ []) ∷ new_extracts values left (suc i)

unfoldable pub faults_from : Option (List FaultType) → ℕ → ℕ → List FaultType
faults_from faults zero i = []
faults_from faults (suc left) i = fault_of faults i ∷ faults_from faults left (suc i)

unfoldable pub rounds_of : ℕ → ℕ → List ℕ
rounds_of zero r = []
rounds_of (suc left) r = r ∷ rounds_of left r

-- `ds_init`; `none` where it returns -1
unfoldable pub ds_init : ℤ → ℤ → Option (List ℤ) → Option (List FaultType) → Option DsSystem
unfolding new_extracts faults_from rounds_of
ds_init n f values faults =
    if nonneg n && not (ltb (pos_part n) 1) && leb (pos_part n) max_processes && nonneg f
    then some (record {
      n = pos_part n;
      f = pos_part f;
      extracts = new_extracts values (pos_part n) 0;
      rounds_done = rounds_of (pos_part n) 0;
      fault_types = faults_from faults (pos_part n) 0;
      current_round = 0;
    })
    else none

-- `ds_sign_chain`: the new hash; `none` where it returns -1
unfoldable pub sign_chain : ChainEntry → ℕ → Option ℕ
unfolding fnv
sign_chain chain signer =
    if leb max_processes (length chain.signers)
    then none
    else some (fnv (bytes_of signer) chain.chain_hash)

-- no signer stands twice
unfoldable pub distinct_signers : List ℕ → Bool
distinct_signers [] = true
distinct_signers (s ∷ ss) = not (elem s ss) && distinct_signers ss

unfoldable pub hash_rest : List ℕ → ℕ → ℕ
unfolding fnv
hash_rest [] hash = hash
hash_rest (s ∷ ss) hash = hash_rest ss (fnv (bytes_of s) hash)

-- `computed_hash`, for a chain with a signer
unfoldable pub computed_hash : List ℕ → ℤ → ℕ
unfolding first_hash hash_rest
computed_hash [] value = 0
computed_hash (s ∷ ss) value = hash_rest ss (first_hash s value)

-- `ds_verify_chain`
unfoldable pub verify_chain : ChainEntry → Bool
unfolding distinct_signers computed_hash
verify_chain chain =
    leb 1 (length chain.signers)
    && leb (length chain.signers) max_processes
    && distinct_signers chain.signers
    && computed_hash chain.signers chain.value == chain.chain_hash

-- the hash that `ds_step` stores
abbrev pub hash_or : Option ℕ → ℕ
hash_or none = 0
hash_or (some hash) = hash

-- what the receiver stores of an entry that it did not have
unfoldable pub signed : ℕ → ChainEntry → ChainEntry
unfolding sign_chain
signed receiver sent =
    if not (elem receiver sent.signers) && ltb (length sent.signers) max_processes
    then record sent {
      signers = sent.signers ++ (receiver ∷ []);
      chain_hash = hash_or (sign_chain sent receiver);
      verified = true;
    }
    else sent

-- `already_has`
unfoldable pub already_has : List ChainEntry → ChainEntry → Bool
already_has [] sent = false
already_has (e ∷ es) sent =
    (eqb_ℤ e.value sent.value && e.chain_hash == sent.chain_hash) || already_has es sent

abbrev pub take_entry : ℕ → List ChainEntry → ChainEntry → List ChainEntry
take_entry receiver es sent =
    if sent.verified
      && (not (already_has es sent) && ltb (length es) (max_processes * max_processes))
    then es ++ (signed receiver sent ∷ [])
    else es

-- the entries of one sender
unfoldable pub take_entries : ℕ → List ChainEntry → List ChainEntry → List ChainEntry
unfolding signed already_has
take_entries receiver es [] = es
take_entries receiver es (sent ∷ rest) = take_entries receiver (take_entry receiver es sent) rest

abbrev pub is_crashed : FaultType → Bool
is_crashed correct = false
is_crashed crash_fault = true
is_crashed byzantine = false

abbrev pub entries_of : List (List ChainEntry) → ℕ → List ChainEntry
entries_of extracts i = get_or extracts i []

-- the senders `sender`, `sender + 1`, …, of which `left` are left
unfoldable pub senders_loop :
    List FaultType → ℕ → ℕ → ℕ → List (List ChainEntry) → List (List ChainEntry)
unfolding take_entries
senders_loop faults receiver zero sender extracts = extracts
senders_loop faults receiver (suc left) sender extracts =
    senders_loop faults receiver left (suc sender) (
      if sender == receiver || is_crashed (get_or faults sender correct)
      then extracts
      else set extracts receiver
          (take_entries receiver (entries_of extracts receiver) (entries_of extracts sender)))

-- the receivers `receiver`, `receiver + 1`, …, of which `left` are left
unfoldable pub receivers_loop :
    List FaultType → ℕ → ℕ → ℕ → List (List ChainEntry) → List (List ChainEntry)
unfolding senders_loop
receivers_loop faults n zero receiver extracts = extracts
receivers_loop faults n (suc left) receiver extracts = receivers_loop faults n left (suc receiver) (
    if is_crashed (get_or faults receiver correct)
    then extracts
    else senders_loop faults receiver n 0 extracts)

-- `ds_step`
unfoldable pub ds_step : DsSystem → Bool × DsSystem
unfolding receivers_loop rounds_of
ds_step ds = if ltb ds.f ds.current_round then (true, ds) else (
  false,
  record ds {
    extracts = receivers_loop ds.fault_types ds.n ds.n 0 ds.extracts;
    rounds_done = rounds_of ds.n (ds.current_round + 1);
    current_round = ds.current_round + 1;
  },
)
