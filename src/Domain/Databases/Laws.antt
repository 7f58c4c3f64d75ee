-- ===== src/Domain/Databases/Laws.antt =====
-- A stored member of an enumeration is read back as that member.
use datarecon_ai_community_e.Prelude.{◌≡◌, refl, some}
use datarecon_ai_community_e.PyText.{text_eq}
use datarecon_ai_community_e.Domain.Databases.{
  DatabaseType, ConnectionRole, Environment, database_value, role_value, environment_value,
  database_types, roles, environments, member_of,
}

pub database_type-read :
    (t : DatabaseType) → member_of database_value database_types (database_value t) ≡ some t
unfolding member_of database_value text_eq
database_type-read = elim [ DatabaseType.oracle ↦ refl | _ ↦ refl ]

pub role-read : (r : ConnectionRole) → member_of role_value roles (role_value r) ≡ some r
unfolding member_of role_value text_eq
role-read = elim [ ConnectionRole.source ↦ refl | _ ↦ refl ]

pub environment-read :
    (e : Environment) → member_of environment_value environments (environment_value e) ≡ some e
unfolding member_of environment_value text_eq
environment-read = elim [ Environment.dev ↦ refl | _ ↦ refl ]
