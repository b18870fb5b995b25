-- ===== src/Manager/Registration.antt =====
-- The registration of the custom resources (api/v1alpha1/groupversion_info.go, and init of
-- agentpool_types.go and agenttask_types.go). Of the controller library's scheme builder it is kept what
-- it has been given.
use kbrain.Prelude.{List, [], ◌∷◌, ◌++◌}
use kbrain.Prelude.Text.{Text, lit}
use kbrain.Memory.DeepCopy.{Root, task_root, pool_root, task_list_root, pool_list_root}

pub record GroupVersion : Type 0 where
  pub group : Text
  pub version : Text

-- The objects of each call of Register, in order.
pub record SchemeBuilder : Type 0 where
  pub group_version : GroupVersion
  pub registered : List (List Root)

abbrev pub group_version : GroupVersion
group_version = record { group = lit "agents.kbrain.io"; version = lit "v1alpha1" }

abbrev pub new_builder : SchemeBuilder
new_builder = record { group_version = group_version; registered = [] }

abbrev register : List Root → SchemeBuilder → SchemeBuilder
register objects b = record b { registered = b.registered ++ objects ∷ [] }

unfoldable pub init_pool_types : SchemeBuilder → SchemeBuilder
init_pool_types = register (pool_root ∷ pool_list_root ∷ [])

unfoldable pub init_task_types : SchemeBuilder → SchemeBuilder
init_task_types = register (task_root ∷ task_list_root ∷ [])

-- The builder once the package is initialised, file by file in the order of their names.
unfoldable pub scheme_builder : SchemeBuilder
unfolding init_pool_types init_task_types
scheme_builder = init_task_types (init_pool_types new_builder)
