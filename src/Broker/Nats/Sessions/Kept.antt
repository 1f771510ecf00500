-- ===== src/Broker/Nats/Sessions/Kept.antt =====
-- A session that broker/nats.go has saved can be restored.
use anycable_go.Prelude.{
  Option-cases, Result, String, ap, inl, inr, none, ok, refl, some, sym, ◌∙◌, ◌≡◌, string_eq,
  nat_eq,
}
use anycable_go.Broker.Nats.JetStream.{JetStream}
use anycable_go.Broker.Nats.Streams.{Nats, initialized}
use anycable_go.Broker.Nats.Publish.{NatsError, ready_error}
use anycable_go.Broker.Nats.Sessions.{
  commit_session, restore_session, finish_session, commit_in, finish_in, with_bucket, session_key,
  outcome,
}

-- A bucket gives back what was put into it last.
abbrev pub Keeps : {J C B : Type 0} → JetStream J C B → B → Type 0
Keeps {J = J} js b =
    (key text : String) (j : J)
    → (js.put_key b key text j).0 ≡ none
    → (js.get_key b key (js.put_key b key text j).1).0 ≡ ok text

module _ {J C B : Type 0} (js : JetStream J C B) where
  with_bucket_runs :
      {A : Type 0} (f : B → J → Result NatsError A × J) (b : B) (n n1 : Nats J C B)
      (r : Result NatsError A)
      → n.ready ≡ initialized
      → n.kv ≡ some b
      → with_bucket f n ≡ (r, n1)
      → (f b n.outside.service ≡ (r, n1.outside.service))
        × (n1.ready ≡ initialized)
        × (n1.kv ≡ some b)
  unfolding ready_error
  with_bucket_runs f b n n1 r ready bucket ran =
      let h = rw (ready, bucket) at ran in
      (
        ap (λ x. (x.0, x.1.outside.service)) h,
        sym (ap (λ x. x.1.ready) h),
        sym (ap (λ x. x.1.kv) h) ∙ bucket,
      )

  put_back :
      (sid text : String) (b : B) (j j1 : J)
      → Keeps js b
      → outcome (js.put_key b (session_key sid) text j).0 ≡ ok tt
      → (js.put_key b (session_key sid) text j).1 ≡ j1
      → (js.get_key b (session_key sid) j1).0 ≡ ok text
  put_back sid text b j j1 law done same =
      elim (Option-cases (js.put_key b (session_key sid) text j).0) [
        | inl fine ↦ rw (← same) (law (session_key sid) text j fine)
        | inr (e, failed) ↦ absurd (cc)
      ]

  commit_in-kept :
      {E : Type 0} (show : E → String) (sid text : String) (b : B) (j j1 : J)
      → Keeps js b
      → commit_in js show sid (ok text) b j ≡ (ok tt, j1)
      → (js.get_key b (session_key sid) j1).0 ≡ ok text
  unfolding commit_in
  commit_in-kept show sid text b j j1 law saved =
      put_back sid text b j j1 law (ap (λ x. x.0) saved) (ap (λ x. x.1) saved)

  finish_in-kept :
      (sid text : String) (b : B) (j j1 : J)
      → Keeps js b
      → (js.get_key b (session_key sid) j).0 ≡ ok text
      → finish_in js sid b j ≡ (ok tt, j1)
      → (js.get_key b (session_key sid) j1).0 ≡ ok text
  unfolding finish_in
  finish_in-kept sid text b j j1 law there finished =
      let done = rw (there, finish_in) at finished in
      put_back sid text b (js.get_key b (session_key sid) j).1 j1 law (ap (λ x. x.0) done)
        (ap (λ x. x.1) done)

  restored :
      (sid text : String) (b : B) (n : Nats J C B)
      → n.ready ≡ initialized
      → n.kv ≡ some b
      → (js.get_key b (session_key sid) n.outside.service).0 ≡ ok text
      → (restore_session js sid n).0 ≡ ok (some text)
  unfolding restore_session ready_error
  restored sid text b n ready bucket there = rw (ready, bucket, there) refl

  -- When the bucket gives back what was put into it, a session whose state was saved is restored to
  -- that state, and so is one that was finished after that.
  pub restore_session_saved :
      {E : Type 0} (show : E → String) (sid text : String) (b : B) (n n1 n2 : Nats J C B)
      → Keeps js b
      → n.ready ≡ initialized
      → n.kv ≡ some b
      → commit_session js show sid (ok text) n ≡ (ok tt, n1)
      → finish_session js sid n1 ≡ (ok tt, n2)
      → ((restore_session js sid n1).0 ≡ ok (some text))
        × ((restore_session js sid n2).0 ≡ ok (some text))
  unfolding commit_session finish_session
  restore_session_saved show sid text b n n1 n2 law ready bucket saved finished =
      let (put_, ready1, bucket1) =
        with_bucket_runs (commit_in js show sid (ok text)) b n n1 (ok tt) ready bucket saved in
      let (again, ready2, bucket2) =
        with_bucket_runs (finish_in js sid) b n1 n2 (ok tt) ready1 bucket1 finished in
      let kept1 = commit_in-kept show sid text b n.outside.service n1.outside.service law put_ in
      let kept2 = finish_in-kept sid text b n1.outside.service n2.outside.service law kept1 again in
      (restored sid text b n1 ready1 bucket1 kept1, restored sid text b n2 ready2 bucket2 kept2)
