-- ===== src/Channels.antt =====
-- The names of the Redis channels in backend/app/ws/events.py.
pub mod Laws
use collabflow.Common.{
  ◌==◌, ℕ, Bool, true, false, ◌&&◌, Option, none, some, Text, List, [], ◌∷◌, ◌++◌, codes, text_eq,
  String, if◌then◌else◌,
}
use collabflow.Runtime.{Runtime}

-- A character onto the first part.
abbrev pub cons_first : ℕ → List Text → List Text
cons_first c [] = (c ∷ []) ∷ []
cons_first c (part ∷ parts) = (c ∷ part) ∷ parts

-- channel.split(":")
unfoldable pub split : Text → List Text
split [] = [] ∷ []
split (c ∷ s) = let parts = split s in if c == b':' then [] ∷ parts else cons_first c parts

module _ (rt : Runtime) where
  -- f"{prefix}:{id}:{suffix}"
  unfoldable pub channel_of : (prefix suffix : String) → (id : ℕ) → Text
  channel_of prefix suffix id = codes prefix ++ (b':' ∷ (rt.uuid_str id ++ (b':' ∷ codes suffix)))

  -- Three parts, of which the outer two are the expected ones.
  abbrev pub id_of_parts : (prefix suffix : String) → List Text → Option ℕ
  id_of_parts prefix suffix (a ∷ b ∷ c ∷ []) =
      if text_eq a (codes prefix) && text_eq c (codes suffix) then rt.uuid_of b else none
  id_of_parts prefix suffix _ = none

  unfoldable pub entity_id_from_channel : (channel : Text) → (prefix suffix : String) → Option ℕ
  unfolding split
  entity_id_from_channel channel prefix suffix = id_of_parts prefix suffix (split channel)

  unfoldable pub channel_name : (project_id : ℕ) → Text
  unfolding channel_of
  channel_name project_id = channel_of "project" "events" project_id

  unfoldable pub project_id_from_channel : (channel : Text) → Option ℕ
  unfolding entity_id_from_channel
  project_id_from_channel channel = entity_id_from_channel channel "project" "events"

  unfoldable pub notification_channel_name : (user_id : ℕ) → Text
  unfolding channel_of
  notification_channel_name user_id = channel_of "user" "notifications" user_id

  unfoldable pub user_id_from_notification_channel : (channel : Text) → Option ℕ
  unfolding entity_id_from_channel
  user_id_from_notification_channel channel = entity_id_from_channel channel "user" "notifications"
