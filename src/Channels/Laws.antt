-- ===== src/Channels/Laws.antt =====
-- Reading the name of a Redis channel back.
use collabflow.Common.{
  ℕ, ◌≡◌, refl, false, none, some, Text, [], ◌∷◌, ◌++◌, arith, contains, codes, text_eq,
}
use collabflow.Runtime.{Runtime, UuidLaws}
use collabflow.Channels.{
  split, channel_of, channel_name, project_id_from_channel, notification_channel_name,
  user_id_from_notification_channel, entity_id_from_channel,
}

-- A part without a colon in front of a colon.
pub split-part :
    (part rest : Text)
    → contains part b':' ≡ false
    → split (part ++ (b':' ∷ rest)) ≡ part ∷ split rest
unfolding split contains
split-part [] rest h = refl
split-part (c ∷ part) rest h = ground (arith, split-part part rest)

module _ (rt : Runtime) (laws : UuidLaws rt) where
  -- The name of a project's channel gives the project back, and is no user's channel.
  pub project_id-channel_name :
      (p : ℕ)
      → (project_id_from_channel rt (channel_name rt p) ≡ some p)
        × (user_id_from_notification_channel rt (channel_name rt p) ≡ none)
  unfolding project_id_from_channel user_id_from_notification_channel channel_name channel_of
      entity_id_from_channel split text_eq
  project_id-channel_name p = (
    rw (split-part (rt.uuid_str p) (codes "events") (laws.no_colon p)) (laws.uuid_of-uuid_str p),
    rw (split-part (rt.uuid_str p) (codes "events") (laws.no_colon p)) refl,
  )

  -- The name of a user's channel gives the user back, and is no project's channel.
  pub user_id-notification_channel_name :
      (u : ℕ)
      → (user_id_from_notification_channel rt (notification_channel_name rt u) ≡ some u)
        × (project_id_from_channel rt (notification_channel_name rt u) ≡ none)
  unfolding project_id_from_channel user_id_from_notification_channel notification_channel_name
      channel_of entity_id_from_channel split text_eq
  user_id-notification_channel_name u = (
    rw (split-part (rt.uuid_str u) (codes "notifications") (laws.no_colon u))
        (laws.uuid_of-uuid_str u),
    rw (split-part (rt.uuid_str u) (codes "notifications") (laws.no_colon u)) refl,
  )
