-- ===== src/Coordinator/InstanceList.antt =====
-- coordinador/instance-list/instance-list.c: the list of the instances.
use tp_so_1c.Prelude.{
  ℕ, zero, suc, ℤ, pos, same_int, same_key, ◌==◌, String, Bool, true, false, not, ◌&&◌, ◌||◌,
  Option, none, some, List, [], ◌∷◌, if◌then◌else◌,
}
use tp_so_1c.Commons.{ListLib}
use tp_so_1c.Coordinator.State.{Coordinator, Instance, disconnected, write_instance}

unfoldable pub list_contains : ListLib → List ℕ → ℕ → Bool
list_contains lib list elem = elim (lib.list_find list (λ found. found == elem)) [
  | none ↦ false
  | some _ ↦ true
]

-- `list_find` with the closure that counts the available instances in `i`.
unfoldable pub find_available : (ℕ → Bool) → ℤ → ℕ → List ℕ → Option ℕ
find_available is_available index i [] = none
find_available is_available index i (x ∷ xs) =
    let skipped = find_available is_available index i xs in
    let counted = find_available is_available index (suc i) xs in
    if is_available x then if same_int (pos i) index then some x else counted else skipped

unfoldable pub instance_list_node_create : String → ℤ → Instance
instance_list_node_create name fd = record {
  name = name;
  fd = fd;
  used_entries = 0;
  requests = record { elements = []; count = 0 };
}

module _ (lib : ListLib) {Dict : Type 0} where
  unfoldable pub instance_is_connected : Coordinator Dict → ℕ → Bool
  instance_is_connected s i = not (same_int (s.instances i).fd disconnected)

  -- The closure of the same name. `none` is a NULL list of excluded instances.
  unfoldable pub instance_is_available : Option (List ℕ) → Coordinator Dict → ℕ → Bool
  unfolding instance_is_connected list_contains
  instance_is_available none s i = instance_is_connected s i
  instance_is_available (some excluded_instances) s i =
      not (list_contains lib excluded_instances i) && instance_is_connected s i

  unfoldable pub instance_list_size : Option (List ℕ) → Coordinator Dict → ℕ
  unfolding instance_is_available
  instance_list_size excluded_instances s =
      lib.list_count_satisfying s.instance_list (instance_is_available excluded_instances s)

  unfoldable pub instance_list_get_by_name : String → Coordinator Dict → Option ℕ
  instance_list_get_by_name name s =
      lib.list_find s.instance_list (λ i. same_key (s.instances i).name name)

  unfoldable pub instance_list_get_by_index : ℤ → Option (List ℕ) → Coordinator Dict → Option ℕ
  unfolding find_available instance_is_available
  instance_list_get_by_index index excluded_instances s =
      find_available (instance_is_available excluded_instances s) index 0 s.instance_list

  -- `alive` is the result of `instance_test_connection`.
  unfoldable pub instance_list_add :
      String → ℤ → Bool → Coordinator Dict → Option ℕ × Coordinator Dict
  unfolding instance_list_get_by_name instance_list_node_create
  instance_list_add name fd alive s = elim (instance_list_get_by_name name s) [
    | none ↦ (
      some s.next_instance,
      write_instance s.next_instance (λ _. instance_list_node_create name fd)
          (record s {
            instance_list = lib.list_add_in_index s.instance_list zero s.next_instance;
            next_instance = suc s.next_instance;
          }),
    )
    | some i ↦
        if same_int (s.instances i).fd disconnected || not alive
        then (some i, write_instance i (λ x. record x { fd = fd }) s)
        else (none, s)
  ]

  unfoldable pub instance_list_remove : String → Coordinator Dict → Option ℕ × Coordinator Dict
  unfolding instance_list_get_by_name
  instance_list_remove name s = elim (instance_list_get_by_name name s) [
    | none ↦ (none, s)
    | some i ↦ (some i, write_instance i (λ x. record x { fd = disconnected }) s)
  ]

  unfoldable pub instance_list_first : Option (List ℕ) → Coordinator Dict → Option ℕ
  unfolding instance_is_available
  instance_list_first excluded_instances s =
      lib.list_find s.instance_list (instance_is_available excluded_instances s)

  unfoldable pub instance_list_push : ℕ → Coordinator Dict → Coordinator Dict
  instance_list_push elem s = record s { instance_list = lib.list_add s.instance_list elem }

  -- `list_remove_by_condition` returns the element that it removes, the one that `list_find` meets.
  unfoldable pub instance_list_pop :
      Option (List ℕ) → Coordinator Dict → Option ℕ × Coordinator Dict
  unfolding instance_list_first instance_is_available
  instance_list_pop excluded_instances s = (
    instance_list_first excluded_instances s,
    record s {
      instance_list =
          lib.list_remove_by_condition s.instance_list (instance_is_available excluded_instances s);
    },
  )

  unfoldable pub instance_list_sort : (ℕ → ℕ → Bool) → Coordinator Dict → Coordinator Dict
  instance_list_sort comparator s = record s {
    instance_list = lib.list_sort s.instance_list comparator;
  }
