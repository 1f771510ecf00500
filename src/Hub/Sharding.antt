-- ===== src/Hub/Sharding.antt =====
-- The gates of hub/hub.go together act as one set of subscriptions: which gate holds a stream does
-- not show.
use anycable_go.Prelude.{
  ==_iff, Bool, Bool-cases, List, String, [], ap, arith, false, if◌then◌else◌, inl, inr, length,
  not, refl, suc, true, zero, ℕ, ◌&&◌, ◌<◌, ◌==◌, ◌||◌, ◌∙◌, ◌∷◌, ◌≡◌, string_eq, nat_eq,
}
use anycable_go.Hub.Index.{index-lt}
use anycable_go.Hub.Gates.Subscriptions.{
  subscribed, subscribed-subscribe, subscribed-unsubscribe, subscribed-new_gate,
}
use anycable_go.Hub.Gates
use anycable_go.Hub.Gates.{Gate, Directory, new_gate, subscribe, inner}
use anycable_go.Hub.{gate_or_new, set_gate, gate_of, on_gate, index, build_gates}

length-set_gate :
    (gates : List Gate) (i : ℕ) (g : Gate) → length (set_gate gates i g) ≡ length gates
length-set_gate [] i g = refl
length-set_gate (x ∷ gates) zero g = refl
length-set_gate (x ∷ gates) (suc i) g = ap suc (length-set_gate gates i g)

gate_or_new-set_gate :
    (gates : List Gate) (i j : ℕ) (g : Gate)
    → i < length gates
    → gate_or_new (set_gate gates i g) j ≡ (if i == j then g else gate_or_new gates j)
gate_or_new-set_gate [] i j g h = absurd (omega arith)
gate_or_new-set_gate (x ∷ gates) zero zero g h = refl
gate_or_new-set_gate (x ∷ gates) zero (suc j) g h = ground arith
gate_or_new-set_gate (x ∷ gates) (suc i) zero g h = ground arith
gate_or_new-set_gate (x ∷ gates) (suc i) (suc j) g h =
    gate_or_new-set_gate gates i j g (omega arith) ∙ ground arith

pub length-on_gate :
    (stream : String) (f : Gate → Gate) (gates : List Gate)
    → length (on_gate stream f gates) ≡ length gates
unfolding on_gate
length-on_gate stream f gates = length-set_gate gates _ _

pub gate_of-on_gate :
    (stream s : String) (f : Gate → Gate) (gates : List Gate)
    → 0 < length gates
    → gate_of s (on_gate stream f gates) ≡ (
        if index stream (length gates) == index s (length gates)
        then f (gate_of stream gates)
        else gate_of s gates)
unfolding gate_of on_gate
gate_of-on_gate stream s f gates some_gate =
    let i = index stream (length gates) in
    let g = f (gate_or_new gates i) in
    rw length-set_gate (
      gate_or_new-set_gate gates i (index s (length gates)) g
        (index-lt stream (length gates) some_gate))

-- The session is subscribed to the stream, in the gate that serves it.
pub hub_subscribed : String → ℕ → String → List Gate → Bool
hub_subscribed stream session identifier gates =
    subscribed stream session identifier (gate_of stream gates)

-- Whether the gate of one stream serves another.
abbrev together : String → String → List Gate → Bool
together stream s gates = index stream (length gates) == index s (length gates)

gate_of-together :
    (stream s : String) (gates : List Gate)
    → together stream s gates ≡ true
    → gate_of stream gates ≡ gate_of s gates
unfolding gate_of
gate_of-together stream s gates h = ap (gate_or_new gates) ((==_iff _ _).0 h)

apart :
    (stream s : String) (gates : List Gate)
    → together stream s gates ≡ false
    → (stream == s) ≡ false
apart stream s gates h = elim (Bool-cases (stream == s)) [
  | inl same ↦
      let one : stream ≡ s = (==_iff stream s).0 same in
      ground (
        arith,
        (==_iff (index stream (length gates)) (index s (length gates))).1
            (ap (λ x. index x (length gates)) one),
      )
  | inr other ↦ other
]

module _ (stream : String) (session : ℕ) (identifier : String) (gates : List Gate)
    (some_gate : 0 < length gates) where
  -- A subscription in the hub adds one triple of stream, session and identifier, whatever gate the
  -- others are in.
  pub hub_subscribed-subscribe :
      (s : String) (r : ℕ) (i : String)
      → hub_subscribed s r i (on_gate stream (Gates.subscribe session stream identifier) gates)
        ≡ ((stream == s && session == r && identifier == i) || hub_subscribed s r i gates)
  unfolding hub_subscribed
  hub_subscribed-subscribe s r i =
      rw (gate_of-on_gate stream s (Gates.subscribe session stream identifier) gates some_gate)
        (elim (Bool-cases (together stream s gates)) [
          | inl shared ↦
              rw (shared, gate_of-together stream s gates shared)
                (subscribed-subscribe session stream identifier (gate_of s gates) r s i)
          | inr split ↦ rw (split, apart stream s gates split) refl
        ])

  -- An unsubscription in the hub takes that triple and no other.
  pub hub_subscribed-unsubscribe :
      (s : String) (r : ℕ) (i : String)
      → hub_subscribed s r i (on_gate stream (Gates.unsubscribe session stream identifier) gates)
        ≡ (hub_subscribed s r i gates && not (stream == s && session == r && identifier == i))
  unfolding hub_subscribed
  hub_subscribed-unsubscribe s r i =
      rw (gate_of-on_gate stream s (Gates.unsubscribe session stream identifier) gates some_gate)
        (elim (Bool-cases (together stream s gates)) [
          | inl shared ↦
              rw (shared, gate_of-together stream s gates shared)
                (subscribed-unsubscribe session stream identifier (gate_of s gates) r s i)
          | inr split ↦ rw (split, apart stream s gates split) (ground arith)
        ])

gate_or_new-build_gates : (n i : ℕ) → gate_or_new (build_gates n) i ≡ new_gate
unfolding build_gates
gate_or_new-build_gates zero i = refl
gate_or_new-build_gates (suc n) zero = refl
gate_or_new-build_gates (suc n) (suc i) = gate_or_new-build_gates n i

-- Nobody is subscribed in new gates.
pub hub_subscribed-build_gates :
    (n : ℕ) (s : String) (r : ℕ) (i : String) → hub_subscribed s r i (build_gates n) ≡ false
unfolding hub_subscribed gate_of
hub_subscribed-build_gates n s r i =
    rw (gate_or_new-build_gates n (index s (length (build_gates n)))) (subscribed-new_gate s r i)

pub length-build_gates : (n : ℕ) → length (build_gates n) ≡ n
unfolding build_gates
length-build_gates zero = refl
length-build_gates (suc n) = ap suc (length-build_gates n)
