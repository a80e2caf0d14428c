-- ===== src/Coordinator/Distribution.antt =====
-- coordinador/distribution.c: the choice of the instance for a key.
use tp_so_1c.Prelude.{
  ℕ, ◌+◌, ◌-◌, ◌*◌, ◌/◌, ◌%◌, ℤ, pos, negsuc, same_int, leb, ltb, String, Bool, not, Option, none,
  some, List, if◌then◌else◌,
}
use tp_so_1c.Commons.{ListLib}
use tp_so_1c.Coordinator.State.{
  Coordinator, CharLib, DictLib, DistributionAlgorithm, lsu, el, ke, disconnected,
}
use tp_so_1c.Coordinator.KeyTable.{key_table_create_key, key_table_remove, key_table_get_instance}
use tp_so_1c.Coordinator.InstanceList.{
  instance_list_pop, instance_list_push, instance_list_sort, instance_list_size,
  instance_list_get_by_index,
}

-- `(first_char - 'a') * size / ('z' - 'a' + 1)`: `size` is a `size_t`, so that the product and the
-- quotient are unsigned, of 64 bits.
unfoldable pub explicit_quotient : ℤ → ℕ → ℕ
explicit_quotient (pos c) size =
    if leb 97 c
    then (c - 97) * size % 18446744073709551616 / 26
    else (18446744073709551616 - (97 - c) * size % 18446744073709551616) % 18446744073709551616 / 26
explicit_quotient (negsuc c) size =
    (18446744073709551616 - (98 + c) * size % 18446744073709551616) % 18446744073709551616 / 26

-- The conversion to `int`, of 32 bits.
unfoldable pub to_int : ℕ → ℤ
to_int n = let m = n % 4294967296 in if ltb m 2147483648 then pos m else negsuc (4294967295 - m)

module _ (lib : ListLib) (dict : DictLib) where
  unfoldable pub sort_by_used_space : Coordinator dict.Dict → ℕ → ℕ → Bool
  sort_by_used_space s a b = leb (s.instances a).used_entries (s.instances b).used_entries

  -- The first available instance goes to the end of the list.
  unfoldable pub equitative_load :
      String → Option (List ℕ) → Coordinator dict.Dict → Option ℕ × Coordinator dict.Dict
  unfolding instance_list_pop instance_list_push
  equitative_load key excluded_instances s =
      let (next_instance, t) = instance_list_pop lib excluded_instances s in
      elim next_instance [
        | none ↦ (none, t)
        | some i ↦ (some i, key_table_create_key dict key (some i) (instance_list_push lib i t))
      ]

  unfoldable pub least_space_used :
      String → Option (List ℕ) → Coordinator dict.Dict → Option ℕ × Coordinator dict.Dict
  unfolding instance_list_sort instance_list_pop instance_list_push
  least_space_used key excluded_instances s =
      let u = instance_list_sort lib (sort_by_used_space s) s in
      let (next_instance, t) = instance_list_pop lib excluded_instances u in
      elim next_instance [
        | none ↦ (none, t)
        | some i ↦ (some i, key_table_create_key dict key (some i) (instance_list_push lib i t))
      ]

  unfoldable pub key_explicit :
      CharLib → String → Option (List ℕ) → Coordinator dict.Dict → Option ℕ × Coordinator dict.Dict
  key_explicit chars key excluded_instances s =
      let index = to_int (
        explicit_quotient (chars.lower_first_char key)
          (instance_list_size lib excluded_instances s)) in
      elim (instance_list_get_by_index lib index excluded_instances s) [
        | none ↦ (none, s)
        | some i ↦ (some i, key_table_create_key dict key (some i) s)
      ]

  -- The switch on the algorithm.
  unfoldable pub distribute :
      CharLib
      → DistributionAlgorithm
      → String
      → Option (List ℕ)
      → Coordinator dict.Dict
      → Option ℕ × Coordinator dict.Dict
  distribute chars el key excluded_instances s = equitative_load key excluded_instances s
  distribute chars lsu key excluded_instances s = least_space_used key excluded_instances s
  distribute chars ke key excluded_instances s = key_explicit chars key excluded_instances s

  unfoldable pub dispatch :
      CharLib
      → DistributionAlgorithm
      → String
      → Option (List ℕ)
      → Coordinator dict.Dict
      → Option ℕ × Coordinator dict.Dict
  dispatch chars distribution key excluded_instances s = elim (key_table_get_instance dict key s) [
    | none ↦ distribute chars distribution key excluded_instances s
    | some i ↦
        if not (same_int (s.instances i).fd disconnected)
        then (some i, s)
        else distribute chars distribution key excluded_instances (key_table_remove dict key s)
  ]
