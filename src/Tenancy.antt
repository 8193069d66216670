-- ===== src/Tenancy.antt =====
-- crates/episcience-core/src/tenancy.rs, and the visibility of synthesis/mod.rs: who may read a
-- row. A row carries an owner group and a visibility.
use episcience.Base.{Bool, true, false, ◌||◌, List, Uuid, contains}

pub data Visibility : Type 0 where
  group public : Visibility

pub record Ownership : Type 0 where
  pub owner_group_id : Uuid
  pub visibility : Visibility

-- `Ownership::new`; `Ownership::group` and `Ownership::public` fix the visibility.
abbrev pub owned_by : Uuid → Visibility → Ownership
owned_by g v = record { owner_group_id = g; visibility = v }

abbrev pub is_public : Visibility → Bool
is_public group = false
is_public public = true

-- `visibility = 'public' OR owner_group_id = ANY(viewer_groups)`
unfoldable pub read_predicate : Visibility → Uuid → List Uuid → Bool
read_predicate visibility owner viewer_groups = is_public visibility || contains viewer_groups owner
