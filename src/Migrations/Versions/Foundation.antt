-- ===== src/Migrations/Versions/Foundation.antt =====
-- 34d09d87098c_phase1_foundation.py: users, organizations, workspaces and their members.
use collabflow.Common.{true, false, List, [], ◌∷◌, codes}
use collabflow.Migrations.Catalog.{
  Table, EnumType, Op, string, enum, boolean, no_action, create_type, drop_type, create_table,
  drop_table, create_index,
}
use collabflow.Migrations.Columns.{column, reference, with_base, index_on, table, enum_type}

abbrev pub workspace_role : EnumType
workspace_role = enum_type "workspace_role" (codes "owner" ∷ codes "admin" ∷ codes "member" ∷ [])

abbrev pub users : Table
users =
    table "users"
      (with_base (
        column "email" (string 255) false
        ∷ column "hashed_password" (string 255) false
        ∷ column "full_name" (string 255) false
        ∷ column "is_active" boolean false
        ∷ []))
      []

abbrev pub organizations : Table
organizations =
    table "organizations"
      (with_base (
        column "name" (string 255) false
        ∷ column "slug" (string 255) false
        ∷ reference "owner_id" "users" no_action false
        ∷ []))
      []

abbrev pub workspaces : Table
workspaces =
    table "workspaces"
      (with_base (
        column "name" (string 255) false
        ∷ column "slug" (string 255) false
        ∷ reference "organization_id" "organizations" no_action false
        ∷ []))
      (index_on "uq_workspace_org_slug" (codes "organization_id" ∷ codes "slug" ∷ []) true ∷ [])

abbrev pub workspace_memberships : Table
workspace_memberships =
    table "workspace_memberships"
      (with_base (
        reference "workspace_id" "workspaces" no_action false
        ∷ reference "user_id" "users" no_action false
        ∷ column "role" (enum (codes "workspace_role")) false
        ∷ []))
      (index_on "uq_membership_workspace_user" (codes "workspace_id" ∷ codes "user_id" ∷ []) true
        ∷ [])

unfoldable pub upgrade : List Op
upgrade =
    create_type workspace_role
    ∷ create_table users
    ∷ create_index (codes "users") (index_on "ix_users_email" (codes "email" ∷ []) true)
    ∷ create_table organizations
    ∷ create_index (codes "organizations")
        (index_on "ix_organizations_slug" (codes "slug" ∷ []) true)
    ∷ create_table workspaces
    ∷ create_index (codes "workspaces")
        (index_on "ix_workspaces_organization_id" (codes "organization_id" ∷ []) false)
    ∷ create_index (codes "workspaces") (index_on "ix_workspaces_slug" (codes "slug" ∷ []) false)
    ∷ create_table workspace_memberships
    ∷ create_index (codes "workspace_memberships")
        (index_on "ix_workspace_memberships_workspace_id" (codes "workspace_id" ∷ []) false)
    ∷ create_index (codes "workspace_memberships")
        (index_on "ix_workspace_memberships_user_id" (codes "user_id" ∷ []) false)
    ∷ []

unfoldable pub downgrade : List Op
downgrade =
    drop_table (codes "workspace_memberships")
    ∷ drop_table (codes "workspaces")
    ∷ drop_table (codes "organizations")
    ∷ drop_table (codes "users")
    ∷ drop_type (codes "workspace_role")
    ∷ []
