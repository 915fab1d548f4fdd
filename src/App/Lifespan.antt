-- ===== src/App/Lifespan.antt =====
-- `lifespan` of main.py: the start of the process and its end.
use collabflow.Channels.{project_id_from_channel, user_id_from_notification_channel}
use collabflow.Common.{
  ◌∙◌, ap, List, [], ◌∷◌, ℕ, ◌≡◌, refl, Text, Option, none, some, false, true, ◌||◌, if◌then◌else◌,
  Bool, true, false, Option, none, some, Text,
}
use collabflow.Realtime.Listener.{
  to_project, to_user, Json, Event, message, lost, cancelled, Status, waiting, unsubscribed, failed,
  project_listener, notification_listener, Receipts,
}
use collabflow.Realtime.Listener.Laws.{run_pattern_listener-deliveries, status_after}
use collabflow.Realtime.Connections.{Connections, UserConns}
use collabflow.Runtime.{Runtime}
use collabflow.Config.{Settings}
use collabflow.App.Clients.{Client, Process, get_redis_client, get_s3_client, close_redis_client}
use collabflow.App.Bucket.{Store, ensure_bucket_exists}

-- How `await task` ends after `task.cancel()`: a task that has ended with an exception raises it, and
-- any other one raises the CancelledError that the code catches.
abbrev pub await_raises : Status → Bool
await_raises waiting = false
await_raises unsubscribed = false
await_raises failed = true

-- The loop over the two tasks, and `close_redis_client` behind it: whether an exception ended it, the
-- client that was closed, and the process.
abbrev pub close_after : (raised : Bool) → Process → Bool × Option Client × Process
close_after true p = (true, none, p)
close_after false p = let (closed, q) = close_redis_client p in (false, closed, q)

abbrev pub await_second : (raised : Bool) → Status → Process → Bool × Option Client × Process
await_second true second p = (true, none, p)
await_second false second p = close_after (await_raises second) p

unfoldable pub shut_down :
    (project_listener notification_listener : Status) → Process → Bool × Option Client × Process
unfolding close_redis_client
shut_down project_listener notification_listener p =
    await_second (await_raises project_listener) notification_listener p

-- Up to the `yield`: the error of the bucket that stops the start, or the client that both listeners
-- are started with.
module _ (store : Store) (settings : Settings) where
  abbrev pub start_from :
      Option Text × store.State → Process → (Option Text × Option Client) × store.State × Process
  start_from (some error_code, s) p = ((some error_code, none), s, p)
  start_from (none, s) p =
      let (client, q) = get_redis_client settings p in ((none, some client), s, q)

  unfoldable pub start_up :
      store.State → Process → (Option Text × Option Client) × store.State × Process
  unfolding ensure_bucket_exists get_s3_client get_redis_client
  start_up s p = start_from (ensure_bucket_exists store s) (get_s3_client settings p).1

-- Whether the connection was lost in front of any cancellation.
unfoldable pub loses : List Event → Bool
loses [] = false
loses (message m ∷ events) = loses events
loses (lost ∷ events) = true
loses (cancelled ∷ events) = false

status_after-loses :
    (json : Json) (extract_id : Text → Option ℕ) (events : List Event)
    → await_raises (status_after json extract_id events) ≡ loses events
unfolding status_after loses
status_after-loses json extract_id [] = refl
status_after-loses json extract_id (message m ∷ events) = status_after-loses json extract_id events
status_after-loses json extract_id (lost ∷ events) = refl
status_after-loses json extract_id (cancelled ∷ events) = refl

shut_down-raises :
    (first second : Status) (p : Process)
    → shut_down first second p ≡ (
        if await_raises first || await_raises second
        then (true, none, p)
        else (false, p.redis_client, record p { redis_client = none }))
unfolding shut_down close_redis_client
shut_down-raises waiting waiting p = refl
shut_down-raises waiting unsubscribed p = refl
shut_down-raises waiting failed p = refl
shut_down-raises unsubscribed waiting p = refl
shut_down-raises unsubscribed unsubscribed p = refl
shut_down-raises unsubscribed failed p = refl
shut_down-raises failed second p = refl

module _ (rt : Runtime) (json : Json) (alive : ℕ → Bool) (between : Connections → Connections)
    (aside : UserConns → UserConns) where
  -- The end of the process closes its Redis client exactly if neither listener has lost its connection
  -- before it was cancelled; otherwise the exception of the listener goes on and the client stays open.
  pub shut_down-listeners :
      (projects notifications : List Event) (s : Receipts rt json alive × Connections)
      (t : Receipts rt json alive × UserConns) (p : Process)
      → shut_down
          (project_listener rt json alive between projects s).0
          (notification_listener rt json alive aside notifications t).0
          p
        ≡ (if loses projects || loses notifications
            then (true, none, p)
            else (false, p.redis_client, record p { redis_client = none }))
  unfolding project_listener notification_listener
  shut_down-listeners projects notifications s t p =
      rw
        (run_pattern_listener-deliveries json (project_id_from_channel rt)
          (to_project rt json alive between) projects s)
        (rw
          (run_pattern_listener-deliveries json (user_id_from_notification_channel rt)
            (to_user rt json alive aside) notifications t)
          (shut_down-raises _ _ p
            ∙ ap
                (λ a. outcome (
                  a
                  || await_raises
                      (status_after json (user_id_from_notification_channel rt) notifications)))
                (status_after-loses json (project_id_from_channel rt) projects)
            ∙ ap (λ b. outcome (loses projects || b))
                (status_after-loses json (user_id_from_notification_channel rt) notifications)))
    where
      outcome : Bool → Bool × Option Client × Process
      outcome raised =
          if raised
          then (true, none, p)
          else (false, p.redis_client, record p { redis_client = none })
