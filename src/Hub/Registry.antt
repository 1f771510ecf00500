-- ===== src/Hub/Registry.antt =====
-- RemoveSession, SubscribeSession and UnsubscribeSession of hub/hub.go: the stream lists of the
-- sessions against the subscriptions in the gates.
use anycable_go.Prelude.{
  ==_iff, ==_refl, Bool, Bool-cases, List, Option, Option-cases, String, [], ap, arith, false,
  if◌then◌else◌, inl, inr, length, none, not, refl, some, sym, true, ℕ, ◌&&◌, ◌++◌, ◌<◌, ◌==◌, ◌||◌,
  ◌∙◌, ◌∷◌, ◌≡◌, string_eq, nat_eq,
}
use anycable_go.Prelude.Dict.{delete, lookup, lookup-delete, lookup-put}
use mathlib.Core.Bool.{false≢true}
use anycable_go.Hub.Streams.{remove_stream}
use anycable_go.Hub.Streams.{has_stream}
use anycable_go.Hub.{
  Hub, HubSessionInfo, Directory, unsubscribe_all, StreamPair, Gate, on_gate, subscribe_session,
  unsubscribe_session, remove_session, unsubscribe_session_from_all_channels, new_hub, add_session,
}
use anycable_go.Hub.Gates
use anycable_go.Hub.Sharding.{
  hub_subscribed, length-on_gate, hub_subscribed-unsubscribe, hub_subscribed-subscribe,
  length-build_gates, hub_subscribed-build_gates,
}

-- The pair of a stream and an identifier stands in the session's stream list.
abbrev pub is_listed : Option HubSessionInfo → String → String → Bool
is_listed none stream identifier = false
is_listed (some info) stream identifier = has_stream stream identifier info.streams

-- There is a gate, and every subscription in a gate is on the list of its session.
pub record IsListed (dir : Directory) (h : Hub) : Type 0 where
  pub some_gate : 0 < length h.gates
  pub listed :
      (stream : String) (r : ℕ) (identifier : String)
      → hub_subscribed stream r identifier h.gates ≡ true
      → is_listed (lookup (dir.id r) h.sessions) stream identifier ≡ true

length-unsubscribe_all :
    (session : ℕ) (ps : List StreamPair) (gates : List Gate)
    → length (unsubscribe_all session ps gates) ≡ length gates
unfolding unsubscribe_all
length-unsubscribe_all session [] gates = refl
length-unsubscribe_all session ((stream, identifier) ∷ ps) gates =
    length-unsubscribe_all session ps _ ∙ length-on_gate stream _ gates

-- Unsubscribing a session from a list takes away what is on the list.
pub hub_subscribed-unsubscribe_all :
    (session : ℕ) (ps : List StreamPair) (gates : List Gate) (s : String) (r : ℕ) (i : String)
    → 0 < length gates
    → hub_subscribed s r i (unsubscribe_all session ps gates)
      ≡ (hub_subscribed s r i gates && not (session == r && has_stream s i ps))
unfolding unsubscribe_all
hub_subscribed-unsubscribe_all session [] gates s r i h = ground arith
hub_subscribed-unsubscribe_all session ((stream, identifier) ∷ ps) gates s r i h =
    rw
      (
        hub_subscribed-unsubscribe_all session ps
            (on_gate stream (Gates.unsubscribe session stream identifier) gates) s r i
            (omega (
              arith,
              h,
              length-on_gate stream (Gates.unsubscribe session stream identifier) gates,
            )),
        hub_subscribed-unsubscribe stream session identifier gates h s r i,
      )
      (ground arith)

pub has_stream-append :
    (s i : String) (ps qs : List StreamPair)
    → has_stream s i (ps ++ qs) ≡ (has_stream s i ps || has_stream s i qs)
has_stream-append s i [] qs = refl
has_stream-append s i ((t, j) ∷ ps) qs = ground (arith, has_stream-append s i ps qs)

pub has_stream-remove_stream :
    (stream identifier s i : String) (ps : List StreamPair)
    → (stream == s && identifier == i) ≡ false
    → has_stream s i (remove_stream stream identifier ps) ≡ has_stream s i ps
unfolding remove_stream
has_stream-remove_stream stream identifier s i [] h = refl
has_stream-remove_stream stream identifier s i ((t, j) ∷ ps) h = ground (
  arith,
  has_stream-remove_stream stream identifier s i ps h,
  ==_iff t stream,
  ==_iff j identifier,
)

pub new_hub-IsListed : (dir : Directory) (n : ℕ) → 0 < n → IsListed dir (new_hub n)
unfolding new_hub
new_hub-IsListed dir n h = record {
  some_gate = rw length-build_gates h;
  listed = λ s r i on. absurd (false≢true (sym (hub_subscribed-build_gates n s r i) ∙ on));
}

-- Registering a session whose ID no session has keeps every subscription on a list.
pub add_session-IsListed :
    (dir : Directory) (session : ℕ) (h : Hub)
    → lookup (dir.id session) h.sessions ≡ none
    → IsListed dir h
    → IsListed dir (add_session dir session h)
unfolding add_session
add_session-IsListed dir session h new v = record {
  some_gate = v.some_gate;
  listed = λ s r i on. elim (Bool-cases (dir.id session == dir.id r)) [
    | inl same ↦
        let one : dir.id session ≡ dir.id r = (==_iff (dir.id session) (dir.id r)).0 same in
        let gone : lookup (dir.id r) h.sessions ≡ none = rw (← one) new in
        absurd (false≢true (sym (ap (λ o. is_listed o s i) gone) ∙ v.listed s r i on))
    | inr other ↦ rw (lookup-put, other) (v.listed s r i on)
  ];
}

module _ (dir : Directory) (session : ℕ) (stream identifier : String) (h : Hub) where
  abbrev own : Option HubSessionInfo
  own = lookup (dir.id session) h.sessions

  listed_before :
      (uid s i : String)
      → (dir.id session == uid) ≡ true
      → (o : Option HubSessionInfo) → own ≡ o
      → is_listed (lookup uid h.sessions) s i ≡ is_listed o s i
  listed_before uid s i same o e =
      ap (λ u. is_listed (lookup u h.sessions) s i) (sym ((==_iff (dir.id session) uid).0 same))
      ∙ ap (λ x. is_listed x s i) e

  -- The lists after a subscription.
  is_listed-subscribe_session :
      (uid s i : String)
      → is_listed (lookup uid (subscribe_session dir session stream identifier h).sessions) s i ≡ (
          is_listed (lookup uid h.sessions) s i
          || (dir.id session == uid && stream == s && identifier == i))
  is_listed-subscribe_session uid s i = elim (Bool-cases (dir.id session == uid)) [
    | inl same ↦ elim (Option-cases own) [
      | inl none' ↦
          unfold subscribe_session in
          rw (none', lookup-put, same, listed_before uid s i same none none') (ground arith)
      | inr (info, found) ↦
          unfold subscribe_session in
          rw
            (
              found,
              lookup-put,
              same,
              listed_before uid s i same (some info) found,
              has_stream-append,
            )
            (ground arith)
    ]
    | inr other ↦ unfold subscribe_session in rw (lookup-put, other) (ground arith)
  ]

  -- The lists after an unsubscription: nothing but the pair may be gone, and from the session's
  -- own list alone.
  is_listed-unsubscribe_session :
      (uid s i : String)
      → (dir.id session == uid && stream == s && identifier == i) ≡ false
      → is_listed (lookup uid (unsubscribe_session dir session stream identifier h).sessions) s i
        ≡ is_listed (lookup uid h.sessions) s i
  unfolding unsubscribe_session lookup
  is_listed-unsubscribe_session uid s i apart = elim (Option-cases own) [
    | inl none' ↦ rw (unsubscribe_session, none') refl
    | inr (info, found) ↦ elim (Bool-cases (dir.id session == uid)) [
      | inl same ↦
          rw
            (
              unsubscribe_session,
              found,
              lookup-put,
              same,
              listed_before uid s i same (some info) found,
            )
            (has_stream-remove_stream stream identifier s i info.streams (ground arith))
      | inr other ↦ rw (unsubscribe_session, found, lookup-put, other) refl
    ]
  ]

module _ (dir : Directory) (session : ℕ) (h : Hub)
    (alone : (r : ℕ) → dir.id r ≡ dir.id session → r ≡ session) where
  same_session : (r : ℕ) → (dir.id session == dir.id r) ≡ (session == r)
  same_session r = elim (Bool-cases (session == r)) [
    | inl same ↦
        let one : session ≡ r = (==_iff session r).0 same in
        rw (same, ← one, ==_refl (dir.id session))
    | inr other ↦
        ground (arith, other, (==_iff session r).1, (==_iff (dir.id session) (dir.id r)).0, alone r)
  ]

  -- Subscribing and unsubscribing a session, whose ID no other session has, each keep every
  -- subscription in the gates on the list of its session.
  pub subscribe_session-IsListed :
      (stream identifier : String)
      → IsListed dir h
      → IsListed dir (subscribe_session dir session stream identifier h)
        × IsListed dir (unsubscribe_session dir session stream identifier h)
  subscribe_session-IsListed stream identifier v = (
    record {
      some_gate = unfold subscribe_session in rw length-on_gate v.some_gate;
      listed = λ s r i on.
          let before =
            hub_subscribed-subscribe stream session identifier h.gates v.some_gate s r i in
          let on' : hub_subscribed s r i
                (on_gate stream (Gates.subscribe session stream identifier) h.gates)
              ≡ true =
            unfold subscribe_session in on in
          is_listed-subscribe_session dir session stream identifier h (dir.id r) s i
          ∙ rw (same_session r) (ground (arith, v.listed s r i, sym before ∙ on'));
    },
    record {
      some_gate = unfold unsubscribe_session in rw length-on_gate v.some_gate;
      listed = λ s r i on.
          let before =
            hub_subscribed-unsubscribe stream session identifier h.gates v.some_gate s r i in
          let on'' : hub_subscribed s r i
                (on_gate stream (Gates.unsubscribe session stream identifier) h.gates)
              ≡ true =
            unfold unsubscribe_session in on in
          let on' = sym before ∙ on'' in
          is_listed-unsubscribe_session dir session stream identifier h (dir.id r) s i
            (rw (same_session r) (ground (arith, on')))
          ∙ v.listed s r i (ground (arith, on'));
    },
  )

  module _ (info : HubSessionInfo) (at : lookup (dir.id session) h.sessions ≡ some info) where
    gates-remove_session :
        (remove_session dir session h).gates ≡ unsubscribe_all session info.streams h.gates
    unfolding remove_session unsubscribe_session_from_all_channels
    gates-remove_session = rw (remove_session, at, unsubscribe_session_from_all_channels, at) refl

    sessions-remove_session :
        (remove_session dir session h).sessions ≡ delete (dir.id session) h.sessions
    unfolding remove_session unsubscribe_session_from_all_channels
    sessions-remove_session =
        rw (remove_session, at, unsubscribe_session_from_all_channels, at) refl

  -- Removing a session, whose ID no other session has, takes all of its subscriptions from the
  -- gates and no other, takes its ID and no other from the sessions, and keeps every subscription
  -- on the list of its session.
  pub remove_session-IsListed :
      (info : HubSessionInfo)
      → lookup (dir.id session) h.sessions ≡ some info
      → IsListed dir h
      → ((s : String) (r : ℕ) (i : String)
          → hub_subscribed s r i (remove_session dir session h).gates
            ≡ (hub_subscribed s r i h.gates && not (session == r)))
        × ((uid : String)
            → lookup uid (remove_session dir session h).sessions
              ≡ (if dir.id session == uid then none else lookup uid h.sessions))
        × IsListed dir (remove_session dir session h)
  remove_session-IsListed info at v =
      let gates = gates-remove_session info at in
      let sessions = sessions-remove_session info at in
      let gone : (s : String) (r : ℕ) (i : String)
          → hub_subscribed s r i (remove_session dir session h).gates
            ≡ (hub_subscribed s r i h.gates && not (session == r)) =
        λ s r i.
          rw (gates, hub_subscribed-unsubscribe_all session info.streams h.gates s r i v.some_gate)
            (elim (Bool-cases (session == r)) [
              | inl its ↦
                  let one : session ≡ r = (==_iff session r).0 its in
                  ground (arith, v.listed s session i, at)
              | inr other ↦ rw other refl
            ]) in
      let names : (uid : String)
          → lookup uid (remove_session dir session h).sessions
            ≡ (if dir.id session == uid then none else lookup uid h.sessions) =
        λ uid. rw (sessions, lookup-delete) refl in
      (
        gone,
        names,
        record {
          some_gate = rw (gates, length-unsubscribe_all) v.some_gate;
          listed = λ s r i on.
              rw (names, same_session r) (ground (arith, sym (gone s r i) ∙ on, v.listed s r i));
        },
      )
