-- ===== src/Hub/Gates/Delivery.antt =====
-- performBroadcast of hub/gate.go: who gets a message, how often, and which one.
use anycable_go.Prelude.{
  ==_iff, All, All-append, Bool, Bool-cases, List, Option-cases, String, [], ap, arith,
  if◌then◌else◌, inl, inr, none, none-ne-some, not, refl, some, sym, ℕ, ◌&&◌, ◌++◌, ◌+◌, ◌==◌, ◌∙◌,
  ◌∷◌, ◌≡◌, string_eq, nat_eq,
}
use anycable_go.Prelude.Dict.{Dict, IsDict, Values, lookup, lookup-put, put}
use anycable_go.Hub.Gates.Invariant.{IsIds, IsGate, inner_sessions}
use anycable_go.Hub.Gates.Subscriptions.{is_some, subscribed}
use mathlib.Core.Path.{ap₂}
use anycable_go.Common.{StreamMessage, Reply, Json, to_reply_for}
use anycable_go.Hub.Gates.{
  inner, send_ids, send_sessions, build_message, is_excluded, Directory, fetch, Gate,
  perform_broadcast,
}

module _ {M : Type 0} where
  -- How many messages a session was sent under an identifier.
  pub count_to : ℕ → String → List (ℕ × Reply M) → ℕ
  count_to r i [] = 0
  count_to r i ((session, reply) ∷ sent) =
      (if session == r && reply.identifier == i then 1 else 0) + count_to r i sent

  count_to-append :
      (r : ℕ) (i : String) (xs ys : List (ℕ × Reply M))
      → count_to r i (xs ++ ys) ≡ count_to r i xs + count_to r i ys
  unfolding count_to
  count_to-append r i [] ys = omega arith
  count_to-append r i (x ∷ xs) ys = omega (arith, count_to-append r i xs ys)

module _ {M : Type 0} (json : Json M) (dir : Directory) (msg : StreamMessage) where
  -- The messages built so far are the ones that would be built again.
  abbrev IsBuf : Dict String (Reply M) → Type 0
  IsBuf buf =
      (id : String) (reply : Reply M)
      → lookup id buf ≡ some reply
      → reply ≡ build_message json dir msg id

  no_messages : IsBuf []
  unfolding lookup
  no_messages id reply e = absurd (none-ne-some e)

  -- The loops without the buffer.
  direct_ids : ℕ → Dict String Bool → List (ℕ × Reply M)
  direct_ids session [] = []
  direct_ids session ((id, b) ∷ ids) =
      (session, build_message json dir msg id) ∷ direct_ids session ids

  direct : Dict ℕ (Dict String Bool) → List (ℕ × Reply M)
  unfolding direct_ids
  direct [] = []
  direct ((session, ids) ∷ rest) =
      (if is_excluded json dir msg session then [] else direct_ids session ids) ++ direct rest

  put-IsBuf :
      (id : String) (buf : Dict String (Reply M))
      → IsBuf buf
      → IsBuf (put id (build_message json dir msg id) buf)
  put-IsBuf id buf v i reply e =
      ground (arith, v i reply, lookup-put id i (build_message json dir msg id) buf, ==_iff id i)

  fetch-direct :
      (id : String) (buf : Dict String (Reply M))
      → IsBuf buf
      → ((fetch json dir msg id buf).0 ≡ build_message json dir msg id)
        × IsBuf (fetch json dir msg id buf).1
  fetch-direct id buf v = elim (Option-cases (lookup id buf)) [
    | inl new ↦ unfold fetch in rw (new, fetch) (refl, put-IsBuf id buf v)
    | inr (known, e) ↦ unfold fetch in rw (e, fetch) (v id known e, v)
  ]

  send_ids-direct :
      (session : ℕ) (ids : Dict String Bool) (buf : Dict String (Reply M))
      → IsBuf buf
      → ((send_ids json dir msg session ids buf).0 ≡ direct_ids session ids)
        × IsBuf (send_ids json dir msg session ids buf).1
  unfolding send_ids direct_ids
  send_ids-direct session [] buf v = (refl, v)
  send_ids-direct session ((id, b) ∷ ids) buf v =
      let fetched = fetch-direct id buf v in
      let rest = send_ids-direct session ids (fetch json dir msg id buf).1 fetched.1 in
      (ap₂ (λ reply sent. (session, reply) ∷ sent) fetched.0 rest.0, rest.1)

  send_sessions-direct :
      (ss : Dict ℕ (Dict String Bool)) (buf : Dict String (Reply M))
      → IsBuf buf
      → send_sessions json dir msg ss buf ≡ direct ss
  unfolding send_sessions direct
  send_sessions-direct [] buf v = refl
  send_sessions-direct ((session, ids) ∷ rest) buf v =
      let sent = send_ids-direct session ids buf v in
      elim (Bool-cases (is_excluded json dir msg session)) [
        | inl skip ↦ rw skip (send_sessions-direct rest buf v)
        | inr go ↦ rw (go, sent.0, send_sessions-direct rest _ sent.1) refl
      ]

  build_message-identifier : (id : String) → (build_message json dir msg id).identifier ≡ id
  unfolding build_message to_reply_for
  build_message-identifier id = ground arith

  count_to-direct_ids :
      (r session : ℕ) (i : String) (ids : Dict String Bool)
      → IsDict ids
      → count_to r i (direct_ids session ids)
        ≡ (if session == r && is_some (lookup i ids) then 1 else 0)
  unfolding count_to direct_ids lookup
  count_to-direct_ids r session i [] d = ground arith
  count_to-direct_ids r session i ((id, b) ∷ ids) d = ground (
    arith,
    count_to-direct_ids r session i ids d.1,
    build_message-identifier id,
    ==_iff id i,
    ==_iff session r,
  )

  -- What one turn of the outer loop adds.
  count_to_turn :
      (r session : ℕ) (i : String) (ids : Dict String Bool) (rest : Dict ℕ (Dict String Bool))
      → IsDict ids
      → count_to r i (direct ((session, ids) ∷ rest))
        ≡ (if not (is_excluded json dir msg session) && session == r && is_some (lookup i ids)
            then 1
            else 0)
          + count_to r i (direct rest)
  unfolding direct
  count_to_turn r session i ids rest d = elim (Bool-cases (is_excluded json dir msg session)) [
    | inl skip ↦ rw skip (omega arith)
    | inr go ↦ rw go (
        count_to-append r i (direct_ids session ids) (direct rest)
        ∙ ap (λ (n : ℕ). n + count_to r i (direct rest)) (count_to-direct_ids r session i ids d))
  ]

  count_to-direct :
      (r : ℕ) (i : String) (ss : Dict ℕ (Dict String Bool))
      → IsDict ss
      → Values IsIds ss
      → count_to r i (direct ss)
        ≡ (if is_some (lookup i (inner r ss)) && not (is_excluded json dir msg r) then 1 else 0)
  unfolding inner lookup
  count_to-direct r i [] d v = unfold direct count_to in ground arith
  count_to-direct r i ((session, ids) ∷ rest) d v = elim (Bool-cases (session == r)) [
    | inl its ↦
        let same : session ≡ r = (==_iff session r).0 its in
        let absent : lookup r rest ≡ none = rw same at d.0 in
        ground (
          arith,
          count_to_turn r session i ids rest v.0.0,
          count_to-direct r i rest d.1 v.1,
          its,
          absent,
          same,
        )
    | inr other ↦
        ground
          (arith, count_to_turn r session i ids rest v.0.0, count_to-direct r i rest d.1 v.1, other)
  ]

  -- Every message is the one that is built for its own identifier.
  abbrev pub Built : List (ℕ × Reply M) → Type 0
  Built = All (λ x. x.1 ≡ build_message json dir msg x.1.identifier)

  direct_ids-Built : (session : ℕ) (ids : Dict String Bool) → Built (direct_ids session ids)
  unfolding direct_ids
  direct_ids-Built session [] = tt
  direct_ids-Built session ((id, b) ∷ ids) = (
    ap (build_message json dir msg) (sym (build_message-identifier id)),
    direct_ids-Built session ids,
  )

  direct-Built : (ss : Dict ℕ (Dict String Bool)) → Built (direct ss)
  unfolding direct
  direct-Built [] = tt
  direct-Built ((session, ids) ∷ rest) = elim (Bool-cases (is_excluded json dir msg session)) [
    | inl skip ↦ rw skip (direct-Built rest)
    | inr go ↦ rw go (
        All-append _ (direct_ids session ids) (direct rest) (direct_ids-Built session ids)
          (direct-Built rest))
  ]

  -- A broadcast reaches every session that is subscribed to its stream exactly once under each of
  -- the session's identifiers, save for the excluded socket, and no other session; every message
  -- is the one built for the identifier that it is sent under.
  pub perform_broadcast_once :
      (g : Gate)
      → IsGate g
      → ((r : ℕ) (i : String)
          → count_to r i (perform_broadcast json dir msg g)
            ≡ (if subscribed msg.stream r i g && not (is_excluded json dir msg r) then 1 else 0))
        × Built (perform_broadcast json dir msg g)
  perform_broadcast_once g v =
      let ss = inner msg.stream g.streams in
      let parts = inner_sessions msg.stream g v in
      let plain : perform_broadcast json dir msg g ≡ direct ss =
        unfold perform_broadcast in send_sessions-direct ss [] no_messages in
      rw plain
        ((λ r i. unfold subscribed in count_to-direct r i ss parts.0 parts.1), direct-Built ss)
