-- ===== src/Tests/Accounts.antt =====
-- Accounts, roles, memberships, labels and notifications on the small database.
use collabflow.World.{commit}
use collabflow.Slugs.{is_slug_char}
use collabflow.Common.{
  ◌==◌, ◌≡◌, ◌↔◌, refl, true, none, some, ◌∷◌, codes, find, text_eq, arith, any,
}
use collabflow.Config.{default_settings}
use collabflow.Models.{User, Role, Project, ProjectMembership, Label, Notification, Task}
use collabflow.World.{World, ok, err, auth_error}
use collabflow.Security.{create_access_token, create_refresh_token}
use collabflow.Deps.{require_project_role, require_task_project_role, get_current_user}
use collabflow.Crud.Project.{is_membership}
use collabflow.Crud.Label
use collabflow.Crud.Attachment
use collabflow.Crud.Notification
use collabflow.Service.Auth.{UserCreate, register_user, authenticate, refresh_access_token}
use collabflow.Service.Auth.Laws.{
  authenticate-register_user, refresh_access_token-create_refresh_token,
}
use collabflow.Service.Label.{create_label}
use collabflow.Service.Project.{invite_member, create_project}
use collabflow.Router.Access.{suffices, require_project_role_iff, require_task_project_role_iff}
use collabflow.Router.Ownership.{download_attachment-own}
use collabflow.Router.Files.{download_attachment}
use collabflow.Router.Notifications.{mark_notification_read}
use collabflow.Invariant.Good.{opened}
use collabflow.Tests.Libraries.{plain_runtime, plain_jwt, plain_passwords}
use collabflow.Tests.Tables.{
  alice, bob, write_plan, notes_file, assigned, small_world, alice_token, bob_token,
}

abbrev carol : UserCreate
carol = record {
  email = codes "carol@site.org";
  password = codes "cherry";
  full_name = codes "Carol";
}

abbrev carol_row : User
carol_row = record {
  id = 21;
  email = codes "carol@site.org";
  hashed_password = codes "cherry";
  full_name = codes "Carol";
  is_active = true;
  created_at = 100;
}

carol_registers : (register_user plain_runtime carol small_world).0 ≡ ok carol_row
unfolding register_user find text_eq any
carol_registers = refl

authenticate-register_user_example :
    (authenticate plain_runtime carol.email carol.password
      (register_user plain_runtime carol small_world).1).0
    ≡ ok carol_row
authenticate-register_user_example =
    authenticate-register_user plain_runtime plain_passwords carol small_world carol_row
      carol_registers

alice_found : find (λ v. v.id == alice.id) small_world.session.users ≡ some alice
unfolding find
alice_found = refl

refresh_access_token-create_refresh_token_example :
    ((refresh_access_token plain_runtime default_settings
        (create_refresh_token plain_runtime default_settings 40 alice.id)
        small_world).0
      ≡ ok (create_access_token plain_runtime default_settings small_world.clock alice.id))
    × ((refresh_access_token plain_runtime default_settings
          (create_access_token plain_runtime default_settings 40 alice.id)
          small_world).0
        ≡ err (auth_error "Invalid or expired refresh token"))
refresh_access_token-create_refresh_token_example =
    refresh_access_token-create_refresh_token plain_runtime plain_jwt default_settings 40
      small_world alice alice_found refl (omega arith) (omega arith)

bug_taken : Label.name_taken 6 (codes "bug") small_world.session ≡ true
unfolding Label.name_taken any text_eq
bug_taken = refl

abbrev idea : Label
idea = record {
  id = 20;
  project_id = 6;
  name = codes "idea";
  color = codes "#00ff00";
  created_at = 100;
}

idea_created : (create_label 6 (codes "idea") (codes "#00ff00") 1 small_world).0 ≡ ok idea
unfolding create_label Label.name_taken any text_eq
idea_created = refl

require_project_role_iff_example :
    ((require_project_role plain_runtime Role.admin alice_token 6 small_world).0 ≡ ok alice) ↔ (
      ((get_current_user plain_runtime alice_token small_world).0 ≡ ok alice)
      × (suffices Role.admin
            (find (is_membership 6 alice.id) small_world.session.project_memberships)
          ≡ true))
require_project_role_iff_example =
    require_project_role_iff plain_runtime Role.admin alice_token 6 small_world alice

bob_is_caller : (get_current_user plain_runtime bob_token small_world).0 ≡ ok bob
unfolding get_current_user find
bob_is_caller = refl

require_task_project_role_iff_example :
    ((require_task_project_role plain_runtime Role.member bob_token 9 small_world).0
      ≡ ok write_plan)
    ↔ ((find (λ t. t.id == 9) small_world.session.tasks ≡ some write_plan)
        × (suffices Role.member (
              find
                (is_membership write_plan.project_id bob.id)
                small_world.session.project_memberships)
            ≡ true))
require_task_project_role_iff_example =
    require_task_project_role_iff plain_runtime Role.member bob_token 9 small_world bob write_plan
      bob_is_caller

abbrev carol_joined : World
carol_joined = record small_world {
  session = record small_world.session { users = carol_row ∷ small_world.session.users };
}

abbrev carol_in_launch : ProjectMembership
carol_in_launch = record {
  id = 20;
  project_id = 6;
  user_id = 21;
  role = Role.admin;
  created_at = 100;
}

carol_invited : (invite_member 6 carol.email Role.admin 1 carol_joined).0 ≡ ok carol_in_launch
unfolding invite_member find text_eq any
carol_invited = refl

abbrev beta : Project
beta = record {
  id = 21;
  name = codes "beta";
  slug = codes "beta";
  description = none;
  workspace_id = 4;
  created_at = 100;
}

beta_created : (create_project plain_runtime 4 (codes "beta") none 1 small_world).0 ≡ ok beta
unfolding create_project find any text_eq is_slug_char
beta_created = refl

notes_downloaded : (download_attachment plain_runtime bob_token 9 12 small_world).0 ≡ ok notes_file
unfolding download_attachment require_task_project_role find Attachment.get_by_id
notes_downloaded = refl

download_attachment-own_example :
    (t : Task) × ((require_task_project_role plain_runtime Role.member bob_token 9
        (opened small_world)).0
      ≡ ok t)
    × (notes_file.task_id ≡ t.id)
download_attachment-own_example =
    download_attachment-own plain_runtime bob_token 9 small_world 12 notes_file notes_downloaded

abbrev assigned_read : Notification
assigned_read = record assigned { read_at = some 100 }

assigned_marked :
    (mark_notification_read plain_runtime bob_token 13 small_world).0 ≡ ok assigned_read
unfolding mark_notification_read get_current_user find Notification.get_by_id Notification.mark_read
    commit
assigned_marked = refl
