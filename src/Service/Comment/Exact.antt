-- ===== src/Service/Comment/Exact.antt =====
-- Exactly who is notified of a comment.
use collabflow.Common.{
  ◌==◌, ℕ, ◌≡◌, refl, Option, none, some, List, [], ◌∷◌, ◌++◌, Text, find, text_eq, ap, ◌∙◌,
  Bool-cases, Option-cases, inl, inr, if◌then◌else◌,
}
use collabflow.Models.{Task, User, Comment, NotificationType}
use collabflow.World.{pure, continue-ok, World, Db, ok}
use collabflow.Crud.Project.{is_membership}
use collabflow.Runtime.{Runtime}
use collabflow.Mentions.{extract_mentioned_emails}
use collabflow.Service.Comment.{
  notify_user, notify_mentions, create_comment, post_comment, mention_all,
}
use collabflow.Service.Comment.Laws.{may_hear}
use collabflow.Service.Notification.{create_and_dispatch}
use collabflow.Service.Notification.Notes.{Note, notes}

abbrev pub mention_note : Task → (user_id : ℕ) → Note
mention_note task user_id = record {
  user_id = user_id;
  type = NotificationType.mention;
  task_id = some task.id;
  read_at = none;
}

-- What a mention of the user adds.
abbrev pub mention_notes : Task → (author_id : ℕ) → Db → Option User → List Note
mention_notes task author_id db none = []
mention_notes task author_id db (some u) =
    if may_hear db.project_memberships task.project_id author_id u.id
    then mention_note task u.id ∷ []
    else []

abbrev pub user_with : Text → Db → Option User
user_with email db = find (λ u. text_eq u.email email) db.users

-- One mention after the other, the last first, in front of what was there.
abbrev pub with_mentions : Task → (author_id : ℕ) → Db → List Text → List Note → List Note
with_mentions task author_id db [] old = old
with_mentions task author_id db (email ∷ emails) old =
    with_mentions task author_id db emails
      (mention_notes task author_id db (user_with email db) ++ old)

-- Everything is committed, and the users, the memberships and the comments are those of the database.
pub record Knows (db : Db) (w : World) : Type 0 where
  pub kept : w.committed ≡ w.session
  pub comments : w.session.comments ≡ db.comments
  pub users : w.session.users ≡ db.users
  pub members : w.session.project_memberships ≡ db.project_memberships

-- The row of the comment.
abbrev pub posted : (task_id author_id : ℕ) → (body : Text) → World → Comment
posted task_id author_id body w = record {
  id = w.drawn;
  task_id = task_id;
  author_id = author_id;
  body = body;
  created_at = w.clock;
}

module _ (task : Task) (author : ℕ) (db : Db) where
  notify_user-exact :
      (u : Option User) (w : World)
      → Knows db w
      → ((notify_user task author u w).0 ≡ ok tt)
        × Knows db (notify_user task author u w).1
        × (notes (notify_user task author u w).1.session
            ≡ mention_notes task author db u ++ notes w.session)
  unfolding notify_user create_and_dispatch
  notify_user-exact none w k = (refl, k, refl)
  notify_user-exact (some u) w k = elim (Bool-cases (u.id == author)) [
    | inl own ↦ rw own (refl, k, refl)
    | inr other ↦
        elim (Option-cases
          (find (is_membership task.project_id u.id) w.session.project_memberships)) [
            | inl stranger ↦ rw other (rw stranger (rw (rw k.members at stranger) (refl, k, refl)))
            | inr (m, member) ↦ elim (Option-cases (find (λ v. v.id == u.id) w.session.users)) [
              | inl gone ↦ rw other (
                  rw member (
                    rw gone (
                      rw (rw k.members at member) (
                        refl,
                        record {
                          kept = refl;
                          comments = k.comments;
                          users = k.users;
                          members = k.members;
                        },
                        refl,
                      ))))
              | inr (r, there) ↦ rw other (
                  rw member (
                    rw there (
                      rw (rw k.members at member) (
                        refl,
                        record {
                          kept = refl;
                          comments = k.comments;
                          users = k.users;
                          members = k.members;
                        },
                        refl,
                      ))))
            ]
          ]
  ]

  notify_mentions-exact :
      (emails : List Text) (w : World)
      → Knows db w
      → ((notify_mentions task author emails w).0 ≡ ok tt)
        × (notes (notify_mentions task author emails w).1.session
            ≡ with_mentions task author db emails (notes w.session))
        × Knows db (notify_mentions task author emails w).1
  unfolding notify_mentions
  notify_mentions-exact [] w k = (refl, refl, k)
  notify_mentions-exact (e ∷ emails) w k =
      let found = user_with e w.session in
      let (done, knows, noted) = notify_user-exact found w k in
      let step =
        continue-ok (notify_user task author found w) tt (λ u. notify_mentions task author emails)
          done in
      let (rest, told, known) =
        notify_mentions-exact emails (notify_user task author found w).1 knows in
      let same : mention_notes task author db found ++ notes w.session
          ≡ mention_notes task author db (user_with e db) ++ notes w.session =
        ap
          (λ us. mention_notes task author db (find (λ u. text_eq u.email e) us) ++ notes w.session)
          k.users in
      (
        ap (λ r. r.0) step ∙ rest,
        ap (λ r. notes r.1.session) step
            ∙ told
            ∙ ap (with_mentions task author db emails) (noted ∙ same),
        rw step known,
      )

mention_notes-same :
    (task : Task) (author : ℕ) (a b : Db) (u : Option User)
    → a.project_memberships ≡ b.project_memberships
    → mention_notes task author a u ≡ mention_notes task author b u
mention_notes-same task author a b none ms = refl
mention_notes-same task author a b (some u) ms =
    ap
      (λ rows.
        if may_hear rows task.project_id author u.id then mention_note task u.id ∷ [] else [])
      ms

with_mentions-same :
    (task : Task) (author : ℕ) (a b : Db) (emails : List Text) (old : List Note)
    → a.users ≡ b.users
    → a.project_memberships ≡ b.project_memberships
    → with_mentions task author a emails old ≡ with_mentions task author b emails old
with_mentions-same task author a b [] old us ms = refl
with_mentions-same task author a b (e ∷ es) old us ms =
    with_mentions-same task author a b es (mention_notes task author a (user_with e a) ++ old) us ms
    ∙ ap (λ ns. with_mentions task author b es (ns ++ old))
        (mention_notes-same task author a b (user_with e a) ms
          ∙ ap (λ rows. mention_notes task author b (find (λ u. text_eq u.email e) rows)) us)

-- The database with the comment in it.
abbrev with_comment : Comment → Db → Db
with_comment c db = record db { comments = c ∷ db.comments }

module _ (rt : Runtime) (task_id author : ℕ) (body : Text) (w : World) (task : Task) where
  post_comment-ok :
      find (λ t. t.id == task_id) w.session.tasks ≡ some task
      → ((post_comment task_id author body w).0 ≡ ok (posted task_id author body w, task))
        × Knows
            (with_comment (posted task_id author body w) w.session)
            (post_comment task_id author body w).1
        × (notes (post_comment task_id author body w).1.session ≡ notes w.session)
  unfolding post_comment
  post_comment-ok h =
      rw h (refl, record { kept = refl; comments = refl; users = refl; members = refl }, refl)

  -- A comment on a task that is there is made: it is committed in front of the comments there were. The
  -- notifications that are then committed are the old ones and in front of them exactly these: for each
  -- email mentioned in its body, one unread mention to the user with that email, if there is one who is
  -- not the author and is a member of the task's project.
  pub create_comment-notes :
      find (λ t. t.id == task_id) w.session.tasks ≡ some task
      → ((create_comment rt task_id author body w).0 ≡ ok (posted task_id author body w))
        × ((create_comment rt task_id author body w).1.committed.comments
            ≡ posted task_id author body w ∷ w.session.comments)
        × (notes (create_comment rt task_id author body w).1.committed
            ≡ with_mentions task author w.session
                (extract_mentioned_emails rt body)
                (notes w.session))
  unfolding create_comment
  create_comment-notes h =
      let c = posted task_id author body w in
      let (done, knows, same) = post_comment-ok h in
      let emails = extract_mentioned_emails rt body in
      let v = (post_comment task_id author body w).1 in
      let (told, noted, known) =
        notify_mentions-exact task author (with_comment c w.session) emails v knows in
      let step =
        continue-ok (post_comment task_id author body w) (c, task) (mention_all rt author) done
        ∙ continue-ok (notify_mentions task author emails v) tt (λ u. pure c) told in
      (
        ap (λ r. r.0) step,
        ap (λ r. r.1.committed.comments) step ∙ ap (λ db. db.comments) known.kept ∙ known.comments,
        ap (λ r. notes r.1.committed) step
            ∙ ap notes known.kept
            ∙ noted
            ∙ ap (with_mentions task author (with_comment c w.session) emails) same
            ∙ with_mentions-same task author (with_comment c w.session) w.session emails
                (notes w.session) refl refl,
      )
