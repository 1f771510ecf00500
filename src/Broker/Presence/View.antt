-- ===== src/Broker/Presence/View.antt =====
-- The presence state of broker/memory.go as its two indexes show it: the record under a stream and
-- a presence ID, and the presence ID under which a session has joined a stream.
use anycable_go.Prelude.{
  Bool, Distinct, Option, String, contains, false, is_empty, none, refl, some, sym, true, ◌↔◌, ◌∙◌,
  ◌≡◌, string_eq, nat_eq,
}
use anycable_go.Prelude.Dict.{lookup}
use anycable_go.Broker.Presence.{PresenceState, PresenceEntry}

abbrev pub or_none {ℓ κ} : {A : Type ℓ} {B : Type κ} → Option A → (A → Option B) → Option B
or_none none f = none
or_none (some a) f = f a

module _ {A : Type 0} where
  abbrev pub entry_at : String → String → PresenceState A → Option (PresenceEntry A)
  entry_at stream pid ps = or_none (lookup stream ps.streams) (λ present. lookup pid present)

  abbrev pub joined_as : String → String → PresenceState A → Option String
  joined_as sid stream ps = or_none (lookup sid ps.sessions) (λ s. lookup stream s.streams)

  abbrev pub holds : String → Option (PresenceEntry A) → Bool
  holds sid none = false
  holds sid (some entry) = contains sid entry.sessions

  -- The two indexes agree, and a record stands under its own ID with its distinct sessions, at
  -- least one.
  pub record IsPresence (ps : PresenceState A) : Type 0 where
    pub agree :
        (sid stream pid : String)
        → (holds sid (entry_at stream pid ps) ≡ true) ↔ (joined_as sid stream ps ≡ some pid)
    pub named :
        (stream pid : String) (entry : PresenceEntry A)
        → entry_at stream pid ps ≡ some entry
        → (entry.id ≡ pid) × Distinct entry.sessions × (is_empty entry.sessions ≡ false)

  -- States that show the same are well formed alike.
  pub same-IsPresence :
      (ps qs : PresenceState A)
      → ((stream pid : String) → entry_at stream pid qs ≡ entry_at stream pid ps)
      → ((sid stream : String) → joined_as sid stream qs ≡ joined_as sid stream ps)
      → IsPresence ps
      → IsPresence qs
  same-IsPresence ps qs es js v = record {
    agree = λ sid stream pid. rw (es stream pid, js sid stream) (v.agree sid stream pid);
    named = λ stream pid entry e. v.named stream pid entry (sym (es stream pid) ∙ e);
  }

pub or_none-some {ℓ κ} :
    {A : Type ℓ} {B : Type κ} (o : Option A) (f : A → Option B) {b : B}
    → or_none o f ≡ some b
    → (a : A) × (o ≡ some a) × (f a ≡ some b)
or_none-some none f e = cc
or_none-some (some a) f e = (a, refl, e)

pub holds-some :
    {A : Type 0} (sid : String) (o : Option (PresenceEntry A))
    → holds sid o ≡ true
    → (entry : PresenceEntry A) × (o ≡ some entry)
holds-some sid none h = cc
holds-some sid (some entry) h = (entry, refl)
