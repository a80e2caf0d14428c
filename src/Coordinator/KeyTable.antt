-- ===== src/Coordinator/KeyTable.antt =====
-- coordinador/key-table/key-table.c: which instance holds each key.
use tp_so_1c.Prelude.{ℕ, String, Bool, true, false, not, Option, none, some}
use tp_so_1c.Coordinator.State.{DictLib, KeyTableData, Coordinator}

unfoldable pub key_table_data_create : Option ℕ → KeyTableData
key_table_data_create instance_of = record { initialized = false; instance_of = instance_of }

module _ (dict : DictLib) where
  unfoldable pub key_table_get : String → Coordinator dict.Dict → Option KeyTableData
  key_table_get key s = dict.dictionary_get s.key_table key

  -- A key that is in the table keeps its `initialized`, and its instance where the new one is NULL.
  unfoldable pub key_table_create_key :
      String → Option ℕ → Coordinator dict.Dict → Coordinator dict.Dict
  unfolding key_table_data_create key_table_get
  key_table_create_key key instance_of s = elim (key_table_get key s) [
    | none ↦ record s {
      key_table = dict.dictionary_put s.key_table key (key_table_data_create instance_of);
    }
    | some data_found ↦ elim instance_of [
      | none ↦ s
      | some i ↦ record s {
        key_table =
            dict.dictionary_put s.key_table key (record data_found { instance_of = some i });
      }
    ]
  ]

  unfoldable pub key_table_remove : String → Coordinator dict.Dict → Coordinator dict.Dict
  key_table_remove key s = record s { key_table = dict.dictionary_remove s.key_table key }

  unfoldable pub key_table_get_instance : String → Coordinator dict.Dict → Option ℕ
  unfolding key_table_get
  key_table_get_instance key s = elim (key_table_get key s) [
    | none ↦ none
    | some data_found ↦ data_found.instance_of
  ]

  unfoldable pub key_table_is_new : String → Coordinator dict.Dict → Bool
  unfolding key_table_get
  key_table_is_new key s = elim (key_table_get key s) [
    | none ↦ false
    | some data_found ↦ not data_found.initialized
  ]

  unfoldable pub key_table_set_initialized :
      String → Coordinator dict.Dict → Bool × Coordinator dict.Dict
  unfolding key_table_get
  key_table_set_initialized key s = elim (key_table_get key s) [
    | none ↦ (false, s)
    | some data_found ↦ (
      true,
      record s {
        key_table = dict.dictionary_put s.key_table key (record data_found { initialized = true });
      },
    )
  ]
