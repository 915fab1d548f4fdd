-- ===== src/Realtime/Listener/Laws.antt =====
-- The listener against the messages that are meant for it.
use collabflow.Common.{
  ℕ, ◌≡◌, refl, Option, none, some, Text, List, [], ◌∷◌, ◌++◌, codes, text_eq, if◌then◌else◌,
  Bool-cases, inl, inr,
}
use collabflow.Realtime.Listener.{
  Json, Message, Event, message, lost, cancelled, Status, waiting, unsubscribed, failed, on_message,
  run_pattern_listener, deliver_loaded, deliver_extracted,
}

module _ (json : Json) (extract_id : Text → Option ℕ) where
  abbrev with_payload : ℕ → Option json.Payload → List (ℕ × json.Payload)
  with_payload entity_id none = []
  with_payload entity_id (some payload) = (entity_id, payload) ∷ []

  abbrev with_id : Option ℕ → (body : Text) → List (ℕ × json.Payload)
  with_id none body = []
  with_id (some entity_id) body = with_payload entity_id (json.loads body)

  abbrev decoded : Message → List (ℕ × json.Payload)
  decoded m =
      if text_eq m.type (codes "pmessage") then with_id (extract_id m.channel) m.body else []

  -- The deliveries that a stream asks for: the well-formed messages in front of its end.
  unfoldable pub deliveries : List Event → List (ℕ × json.Payload)
  deliveries [] = []
  deliveries (message m ∷ events) = decoded m ++ deliveries events
  deliveries (lost ∷ events) = []
  deliveries (cancelled ∷ events) = []

  -- How a stream leaves the task.
  unfoldable pub status_after : List Event → Status
  status_after [] = waiting
  status_after (message m ∷ events) = status_after events
  status_after (lost ∷ events) = failed
  status_after (cancelled ∷ events) = unsubscribed

  module _ {State : Type 0} (deliver : ℕ → json.Payload → State → State) where
    unfoldable pub deliver_all : List (ℕ × json.Payload) → State → State
    deliver_all [] s = s
    deliver_all ((entity_id, payload) ∷ ds) s = deliver_all ds (deliver entity_id payload s)

    deliver_all-loaded :
        (entity_id : ℕ) (loaded : Option json.Payload) (ds : List (ℕ × json.Payload)) (s : State)
        → deliver_all ds (deliver_loaded json extract_id deliver entity_id loaded s)
          ≡ deliver_all (with_payload entity_id loaded ++ ds) s
    unfolding deliver_all
    deliver_all-loaded entity_id none ds s = refl
    deliver_all-loaded entity_id (some payload) ds s = refl

    deliver_all-extracted :
        (found : Option ℕ) (body : Text) (ds : List (ℕ × json.Payload)) (s : State)
        → deliver_all ds (deliver_extracted json extract_id deliver found body s)
          ≡ deliver_all (with_id found body ++ ds) s
    deliver_all-extracted none body ds s = refl
    deliver_all-extracted (some entity_id) body ds s =
        deliver_all-loaded entity_id (json.loads body) ds s

    deliver_all-on_message :
        (m : Message) (ds : List (ℕ × json.Payload)) (s : State)
        → deliver_all ds (on_message json extract_id deliver m s) ≡ deliver_all (decoded m ++ ds) s
    unfolding on_message
    deliver_all-on_message m ds s = elim (Bool-cases (text_eq m.type (codes "pmessage"))) [
      | inl mine ↦ rw mine (deliver_all-extracted (extract_id m.channel) m.body ds s)
      | inr other ↦ rw other refl
    ]

    -- The listener makes the deliveries that the well-formed messages ask for, in their order, up to
    -- the first exception or cancellation: a message of another type, on another channel, or with a
    -- payload that is no JSON is passed over, and the listener goes on.
    pub run_pattern_listener-deliveries :
        (events : List Event) (s : State)
        → run_pattern_listener json extract_id deliver events s
          ≡ (status_after events, deliver_all (deliveries events) s)
    unfolding run_pattern_listener deliveries status_after deliver_all
    run_pattern_listener-deliveries [] s = refl
    run_pattern_listener-deliveries (lost ∷ events) s = refl
    run_pattern_listener-deliveries (cancelled ∷ events) s = refl
    run_pattern_listener-deliveries (message m ∷ events) s =
        rw (run_pattern_listener-deliveries events (on_message json extract_id deliver m s))
          (rw (deliver_all-on_message m (deliveries events) s) refl)
