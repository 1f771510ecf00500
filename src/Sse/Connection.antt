-- ===== src/Sse/Connection.antt =====
-- sse/connection.go: what is written before the connection is established waits in a backlog.
use anycable_go.Prelude.{
  Bool, Bool-cases, List, [], ap, arith, false, if◌then◌else◌, inl, inr, not, refl, sym, true, ℕ,
  ◌++◌, ◌∙◌, ◌∷◌, ◌≡◌,
}
use mathlib.Core.List.{append-nil, append_assoc}

-- `written` is what the client gets. A write that fails is an event that the writer refuses.
pub record Connection : Type 0 where
  pub done : Bool
  pub established : Bool
  pub backlog : List ℕ
  pub written : List ℕ

pub new_connection : Connection
new_connection = record { done = false; established = false; backlog = []; written = [] }

-- An event and the empty line that ends it.
abbrev pub event : List ℕ → List ℕ
event msg = msg ++ b'\n' ∷ b'\n' ∷ []

pub write : List ℕ → Connection → Connection
write msg c =
    if c.done
    then c
    else if not c.established
    then record c { backlog = c.backlog ++ event msg }
    else record c { written = c.written ++ event msg }

pub close : Connection → Connection
close c = record c { done = true }

pub establish : Connection → Connection
establish c = record c { established = true; backlog = []; written = c.written ++ c.backlog }

pub data Operation : Type 0 where
  writes : List ℕ → Operation
  closes : Operation
  establishes : Operation

pub run : List Operation → Connection → Connection
unfolding write close establish
run [] c = c
run (writes msg ∷ ops) c = run ops (write msg c)
run (closes ∷ ops) c = run ops (close c)
run (establishes ∷ ops) c = run ops (establish c)

-- The events that are written before the connection is closed, one after the other.
unfoldable pub events : List Operation → List ℕ
events [] = []
events (writes msg ∷ ops) = event msg ++ events ops
events (closes ∷ ops) = []
events (establishes ∷ ops) = events ops

-- Nothing waits in an established connection.
abbrev pub IsConnection : Connection → Type 0
IsConnection c = c.established ≡ true → c.backlog ≡ []

-- What the client has got, and what waits for it.
abbrev pub sent : Connection → List ℕ
sent c = c.written ++ c.backlog

sent-write :
    (msg : List ℕ) (c : Connection)
    → IsConnection c
    → c.done ≡ false
    → sent (write msg c) ≡ sent c ++ event msg
unfolding write
sent-write msg c v opened = elim (Bool-cases c.established) [
  | inl on ↦
      rw (opened, on, v on)
        (append-nil (c.written ++ event msg)
          ∙ ap (λ w. w ++ event msg) (sym (append-nil c.written)))
  | inr off ↦ rw (opened, off) (sym (append_assoc c.written c.backlog (event msg)))
]

write-IsConnection : (msg : List ℕ) (c : Connection) → IsConnection c → IsConnection (write msg c)
unfolding write
write-IsConnection msg c v = elim (Bool-cases c.done) [
  | inl closed ↦ rw closed v
  | inr opened ↦ elim (Bool-cases c.established) [
    | inl on ↦ rw (opened, on) (λ e. v on)
    | inr off ↦ rw (opened, off) (λ e. absurd (cc))
  ]
]

done-write : (msg : List ℕ) (c : Connection) → (write msg c).done ≡ c.done
unfolding write
done-write msg c = ground arith

write_closed : (msg : List ℕ) (c : Connection) → c.done ≡ true → write msg c ≡ c
unfolding write
write_closed msg c closed = rw closed refl

sent_closed : (ops : List Operation) (c : Connection) → c.done ≡ true → sent (run ops c) ≡ sent c
unfolding run close establish
sent_closed [] c closed = refl
sent_closed (writes msg ∷ ops) c closed =
    rw (write_closed msg c closed, run) (sent_closed ops c closed)
sent_closed (closes ∷ ops) c closed = sent_closed ops (close c) refl
sent_closed (establishes ∷ ops) c closed =
    sent_closed ops (establish c) closed ∙ append-nil (c.written ++ c.backlog)

-- From an open connection on, what is written reaches the client, or waits for it, in the order in
-- which it was written, each event once and none that comes after the connection was closed. Before
-- the connection is established it all waits, and afterwards nothing does.
pub run-events :
    (ops : List Operation) (c : Connection)
    → IsConnection c
    → c.done ≡ false
    → sent (run ops c) ≡ sent c ++ events ops
unfolding run events close establish
run-events [] c v opened = sym (append-nil (sent c))
run-events (writes msg ∷ ops) c v opened =
    run-events ops (write msg c) (write-IsConnection msg c v) (done-write msg c ∙ opened)
    ∙ rw (sent-write msg c v opened) (append_assoc (sent c) (event msg) (events ops))
run-events (closes ∷ ops) c v opened = sent_closed ops (close c) refl ∙ sym (append-nil (sent c))
run-events (establishes ∷ ops) c v opened =
    run-events ops (establish c) (λ e. refl) opened
    ∙ ap (λ w. w ++ events ops) (append-nil (c.written ++ c.backlog))
