-- ===== src/Tests/Process.antt =====
-- The daily job, and the end of a process.
use collabflow.Common.{
  refl, find, map, text_eq, contains, any, ℕ, ◌≡◌, Bool, true, false, ◌||◌, none, some, Text, [],
  ◌∷◌, ◌++◌, codes, if◌then◌else◌,
}
use collabflow.Models.{User, Role}
use collabflow.World.{ok}
use collabflow.Crud.Project.{is_membership}
use collabflow.Deps.{get_current_user, require_project_role}
use collabflow.Router.Access.{suffices}
use collabflow.Router.Projects.{get_project_presence}
use collabflow.Router.Presence.{get_project_presence-online}
use collabflow.Realtime.Presence.{online_user_ids}
use collabflow.Realtime.Life.{is_handler_of}
use collabflow.Worker.Schedule.{Entry, registered, beat_schedule}
use collabflow.App.Logging.{Logger, default_formatter, json_formatter, setup_logging}
use collabflow.App.Logging.Laws.{start}
use collabflow.Realtime.Listener.{lost, cancelled, project_listener, notification_listener}
use collabflow.App.Clients.{Process}
use collabflow.App.Lifespan.{shut_down, loses, shut_down-listeners}
use collabflow.Tests.Libraries.{plain_runtime}
use collabflow.Tests.Tables.{small_world, bob_token}
use collabflow.Tests.Rooms.{plain_json, both_open, opening_both}

abbrev any_day : ℕ → Text
any_day day = codes "2026-08-27"

-- What the beat runs is registered.
scheduled_is_registered :
    map (λ (e : Entry). any (text_eq e.task) registered) beat_schedule ≡ true ∷ []
unfolding any text_eq
scheduled_is_registered = refl

abbrev noisy : Logger
noisy = record {
  level = 30;
  handlers = record { stream = codes "stderr"; formatter = default_formatter } ∷ [];
}

-- Two set-ups leave one handler.
handlers_after :
    (setup_logging true (setup_logging true (start noisy))).root.handlers
    ≡ (record { stream = codes "stdout"; formatter = json_formatter } ∷ [])
unfolding setup_logging
handlers_after = refl

abbrev one_client : Process
one_client = record {
  redis_client = some (record { number = 0; url = codes "redis://localhost:6379/0" });
  s3_client = none;
  presign_client = none;
  built = 1;
}

abbrev is_alive : ℕ → Bool
is_alive s = true

shut_down-listeners_example :
    shut_down
      (project_listener plain_runtime plain_json is_alive (λ c. c) (lost ∷ []) ([], [])).0
      (notification_listener plain_runtime plain_json is_alive (λ c. c) (cancelled ∷ []) ([], [])).0
      one_client
    ≡ (if loses (lost ∷ []) || loses (cancelled ∷ [])
        then (true, none, one_client)
        else (false, one_client.redis_client, record one_client { redis_client = none }))
shut_down-listeners_example =
    shut_down-listeners plain_runtime plain_json is_alive (λ c. c) (λ c. c) (lost ∷ [])
      (cancelled ∷ []) ([], []) ([], []) one_client

presence_answered :
    (get_project_presence plain_runtime bob_token both_open.live.hashes 6 small_world).0
    ≡ ok (online_user_ids 6 both_open.live.hashes)
unfolding get_project_presence require_project_role find
presence_answered = refl

get_project_presence-online_example :
    ((caller : User) × ((get_current_user plain_runtime bob_token
          (record small_world { session = small_world.committed })).0
        ≡ ok caller)
      × (suffices Role.member
            (find (is_membership 6 caller.id) small_world.committed.project_memberships)
          ≡ true))
    × (contains (online_user_ids 6 both_open.live.hashes) 1
        ≡ any (is_handler_of 6 1) (both_open.leaving ++ both_open.handlers ++ both_open.stuck))
get_project_presence-online_example =
    get_project_presence-online plain_runtime bob_token both_open 6 1 small_world
      (online_user_ids 6 both_open.live.hashes) opening_both presence_answered
