-- ===== src/Paxos/Messages.antt =====
-- The messages that the roles write, and membership in a network.
use mini_distributed_computi.Prelude.{
  ℕ, ◌<◌, ◌≤◌, ◌≡◌, ◌⊎◌, inl, inr, refl, List, [], ◌∷◌, ◌++◌, length, take, arith,
}
use mini_distributed_computi.Paxos.Types.{Value, prepare_type, accept_type, accepted_type, Message}
use mini_distributed_computi.Paxos.Roles.{write_prepares, write_accepts, write_accepteds}
use mini_distributed_computi.Paxos.System.{In, VotedIn, ProposedIn}

pub In-append : (m : Message) (xs ys : List Message) → In m (xs ++ ys) → In m xs ⊎ In m ys
In-append m [] ys h = inr h
In-append m (x ∷ xs) ys (inl e) = inl (inl e)
In-append m (x ∷ xs) ys (inr h) = elim (In-append m xs ys h) [
  | inl new ↦ inl (inr new)
  | inr old ↦ inr old
]

pub In-append_left : (m : Message) (xs ys : List Message) → In m xs → In m (xs ++ ys)
In-append_left m [] ys h = elim h [ ]
In-append_left m (x ∷ xs) ys (inl e) = inl e
In-append_left m (x ∷ xs) ys (inr h) = inr (In-append_left m xs ys h)

pub In-append_right : (m : Message) (xs ys : List Message) → In m ys → In m (xs ++ ys)
In-append_right m [] ys h = h
In-append_right m (x ∷ xs) ys h = inr (In-append_right m xs ys h)

pub VotedIn-append_right :
    (ms net : List Message) (a b : ℕ) (v : Value) → VotedIn net a b v → VotedIn (ms ++ net) a b v
VotedIn-append_right ms net a b v (m, here, t, f, g, e) =
    (m, In-append_right m ms net here, t, f, g, e)

pub VotedIn-append :
    (ms net : List Message) (a b : ℕ) (v : Value)
    → VotedIn (ms ++ net) a b v
    → VotedIn ms a b v ⊎ VotedIn net a b v
VotedIn-append ms net a b v (m, here, t, f, g, e) = elim (In-append m ms net here) [
  | inl new ↦ inl (m, new, t, f, g, e)
  | inr old ↦ inr (m, old, t, f, g, e)
]

pub ProposedIn-append_right :
    (ms net : List Message) (b : ℕ) (v : Value) → ProposedIn net b v → ProposedIn (ms ++ net) b v
ProposedIn-append_right ms net b v (m, here, t, g, e) = (m, In-append_right m ms net here, t, g, e)

pub ProposedIn-append :
    (ms net : List Message) (b : ℕ) (v : Value)
    → ProposedIn (ms ++ net) b v
    → ProposedIn ms b v ⊎ ProposedIn net b v
ProposedIn-append ms net b v (m, here, t, g, e) = elim (In-append m ms net here) [
  | inl new ↦ inl (m, new, t, g, e)
  | inr old ↦ inr (m, old, t, g, e)
]

pub write_prepares-type :
    (from b : ℕ) (ids : List ℕ) (out : List Message) (m : Message)
    → In m (take (length ids) (write_prepares from b ids out))
    → m.type ≡ prepare_type
unfolding write_prepares
write_prepares-type from b [] out m h = elim h [ ]
write_prepares-type from b (id ∷ ids) [] m h = elim h [ ]
write_prepares-type from b (id ∷ ids) (x ∷ out) m (inl e) = rw e
write_prepares-type from b (id ∷ ids) (x ∷ out) m (inr h) = write_prepares-type from b ids out m h

-- An ACCEPT message as `paxos_accept` fills it.
pub record IsAccept (from b : ℕ) (v : Value) (m : Message) : Type 0 where
  pub type : m.type ≡ accept_type
  pub sender : m.from ≡ from
  pub ballot : m.ballot ≡ b
  pub value : m.value ≡ v

pub write_accepts-IsAccept :
    (from b : ℕ) (v : Value) (ids : List ℕ) (out : List Message) (m : Message)
    → In m (take (length ids) (write_accepts from b v ids out))
    → IsAccept from b v m
unfolding write_accepts
write_accepts-IsAccept from b v [] out m h = elim h [ ]
write_accepts-IsAccept from b v (id ∷ ids) [] m h = elim h [ ]
write_accepts-IsAccept from b v (id ∷ ids) (x ∷ out) m (inl e) =
    rw e (record { type = refl; sender = refl; ballot = refl; value = refl })
write_accepts-IsAccept from b v (id ∷ ids) (x ∷ out) m (inr h) =
    write_accepts-IsAccept from b v ids out m h

-- An ACCEPTED message as `paxos_receive_accept` fills it.
pub record IsAccepted (from b : ℕ) (v : Value) (m : Message) : Type 0 where
  pub type : m.type ≡ accepted_type
  pub sender : m.from ≡ from
  pub ballot : m.ballot ≡ b
  pub value : m.value ≡ v

pub write_accepteds-IsAccepted :
    (from b : ℕ) (v : Value) (ids : List ℕ) (out : List Message) (m : Message)
    → In m (take (length ids) (write_accepteds from b v ids out))
    → IsAccepted from b v m
unfolding write_accepteds
write_accepteds-IsAccepted from b v [] out m h = elim h [ ]
write_accepteds-IsAccepted from b v (id ∷ ids) [] m h = elim h [ ]
write_accepteds-IsAccepted from b v (id ∷ ids) (x ∷ out) m (inl e) =
    rw e (record { type = refl; sender = refl; ballot = refl; value = refl })
write_accepteds-IsAccepted from b v (id ∷ ids) (x ∷ out) m (inr h) =
    write_accepteds-IsAccepted from b v ids out m h

-- With a learner to tell and room for the message, a vote is sent.
pub write_accepteds-VotedIn :
    (from b : ℕ) (v : Value) (ids : List ℕ) (out : List Message)
    → 0 < length ids
    → length ids ≤ length out
    → VotedIn (take (length ids) (write_accepteds from b v ids out)) from b v
unfolding write_accepteds
write_accepteds-VotedIn from b v [] out h r = absurd (omega arith)
write_accepteds-VotedIn from b v (id ∷ ids) [] h r = absurd (omega arith)
write_accepteds-VotedIn from b v (id ∷ ids) (x ∷ out) h r = (
  record x { type = accepted_type; from = from; to = id; ballot = b; value = v },
  inl refl,
  refl,
  refl,
  refl,
  refl,
)

pub VotedIn-append_left :
    (ms net : List Message) (a b : ℕ) (v : Value) → VotedIn ms a b v → VotedIn (ms ++ net) a b v
VotedIn-append_left ms net a b v (m, here, t, f, g, e) =
    (m, In-append_left m ms net here, t, f, g, e)
