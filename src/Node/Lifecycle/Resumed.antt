-- ===== src/Node/Lifecycle/Resumed.antt =====
-- A session that TryRestoreSession of node/node.go restores, against the one that was cached.
use anycable_go.Prelude.{
  Bool, Bool-cases, List, String, [], arith, false, if◌then◌else◌, inl, inr, refl, some, true, ◌++◌,
  ◌==◌, ◌∙◌, ◌∷◌, ◌≡◌, string_eq, nat_eq,
}
use mathlib.Core.List.{append-nil}
use anycable_go.Node.Cache.{entry_of, restored, restore_from_cache}
use anycable_go.Node.Cache.RoundTrip.{IsStored, IsFresh, Resumes, restored-Resumes, channels-IsDict}
use anycable_go.Node.Subscriptions.{joined, keys}
use anycable_go.Node.Replies.Mirror.{after_effects, after_effects-append}
use anycable_go.Node.Commands.{commit}
use anycable_go.Node.Lifecycle.{Greeting, resume, try_restore_session, welcome_type}
use anycable_go.Common.{empty_reply}
use anycable_go.Node.Lifecycle.Resubscribed.{all_calls, resubscribe_all-done, after-all_calls}
use anycable_go.Node.Steps.{
  Session, Effect, hub_add_session, send, commit_session, done, and_then, behind, ◌>>◌, ◌>>=◌,
}

module _ {A M : Type 0} (g : Greeting A M) where
  -- The end of a restored session's start: the welcome, and the commit.
  last_effects : Session → List (Effect A M)
  last_effects s =
      send (record (empty_reply M) {
        kind = welcome_type;
        sid = s.uid;
        restored = true;
        restored_ids = keys s.subscriptions.channels;
      })
      ∷ (if s.resumable then commit_session ∷ [] else [])

  resume-done :
      (s : Session)
      → resume g s
        ≡ done tt
            (record s { connected = true })
            (hub_add_session ∷ (all_calls g s.subscriptions.channels ++ last_effects s))
  unfolding resume last_effects commit
  resume-done s = elim (Bool-cases s.resumable) [
    | inl saves ↦
        rw
          (
            resume,
            ◌>>◌,
            ◌>>=◌,
            and_then,
            behind,
            resubscribe_all-done g s.subscriptions.channels (record s { connected = true }),
            saves,
          )
          refl
    | inr drops ↦
        rw
          (
            resume,
            ◌>>◌,
            ◌>>=◌,
            and_then,
            behind,
            resubscribe_all-done g s.subscriptions.channels (record s { connected = true }),
            drops,
          )
          refl
  ]

  after-last_effects :
      (s : Session) (channel stream : String) (on : Bool)
      → after_effects (last_effects s) channel stream on ≡ on
  unfolding last_effects after_effects
  after-last_effects s channel stream on = ground arith

  -- A connection that names a cached session, which the codec reads back, resumes it where the
  -- broker answers with the streams' own names: TryRestoreSession succeeds, the session is
  -- connected and has all that the cached one had, it is in the hub, its lock is free, and the hub
  -- has it on exactly the streams, in exactly the channels, of the cached session.
  pub try_restore_session-Resumes :
      (s f : Session)
      → IsStored s
      → IsFresh f
      → ((stream : String) → g.world.stream_id stream ≡ stream)
      → (cached : String) → g.codec.decode cached ≡ some (entry_of s)
      → g.restore_session f.prev_sid ≡ some (some cached)
      → (f.prev_sid == "") ≡ false
      → (t : Session) × (es : List (Effect A M)) × (try_restore_session g f
          ≡ done true t (hub_add_session ∷ es))
        × (t.connected ≡ true)
        × (t.locked ≡ false)
        × Resumes s t
        × ((channel stream : String)
            → after_effects es channel stream false ≡ joined channel stream s.subscriptions)
  unfolding try_restore_session restore_from_cache
  try_restore_session-Resumes s f w n names cached reads found named =
      let r : Session = record (restored (entry_of s) f) { locked = false } in
      (
        record r { connected = true },
        all_calls g r.subscriptions.channels ++ last_effects r,
        rw
            (
              try_restore_session,
              named,
              found,
              restore_from_cache,
              reads,
              n.free,
              resume-done r,
              append-nil,
            )
            refl,
        refl,
        refl,
        restored-Resumes s f w n,
        λ channel stream.
            after_effects-append (all_calls g r.subscriptions.channels) (last_effects r) channel
              stream false
            ∙ after-last_effects r channel stream _
            ∙ after-all_calls g names r.subscriptions.channels channel stream false
                (channels-IsDict s f w n)
            ∙ ground (arith, (restored-Resumes s f w n).streams channel stream),
      )
