-- ===== src/Coordinator/EsiConnection.antt =====
-- coordinador/connection/esi-connection.c: the operations of an ESI.
use tp_so_1c.Prelude.{ℕ, ℤ, leb, String, Bool, true, false, none, some, if◌then◌else◌}
use tp_so_1c.Commons.{ListLib}
use tp_so_1c.Coordinator.State.{
  Coordinator, CharLib, DictLib, DistributionAlgorithm, everything_ok, you_are_blocked,
  illegal_operation, send_to_esi, send_to_scheduler, block_the_key, write_instance,
}
use tp_so_1c.Coordinator.KeyTable.{key_table_create_key}
use tp_so_1c.Coordinator.Distribution.{dispatch}
use tp_so_1c.Coordinator.Requests.{request_list_push_set, request_list_push_store}

pub data EsiOperation : Type 0 where
  esi_get : String → EsiOperation
  esi_set : String → String → EsiOperation
  esi_store : String → EsiOperation

-- What the scheduler answers about a key.
pub data KeyState : Type 0 where
  key_unblocked key_blocked key_blocked_by_executing_esi : KeyState

abbrev pub operation_key : EsiOperation → String
operation_key (esi_get key) = key
operation_key (esi_set key value) = key
operation_key (esi_store key) = key

unfoldable pub esi_check_key_size : CharLib → EsiOperation → Bool
esi_check_key_size chars operation = leb (chars.strlen (operation_key operation)) 40

module _ (lib : ListLib) (dict : DictLib) where
  -- The request that a SET or a STORE leaves with an instance.
  unfoldable pub push_operation :
      ℤ → EsiOperation → ℕ → Coordinator dict.Dict → Coordinator dict.Dict
  unfolding request_list_push_set request_list_push_store
  push_operation esi_fd (esi_set key value) i s =
      write_instance i
        (λ x. record x { requests = request_list_push_set lib esi_fd key value x.requests }) s
  push_operation esi_fd operation i s =
      write_instance i
        (λ x. record x {
          requests = request_list_push_store lib esi_fd (operation_key operation) x.requests;
        })
        s

  unfoldable pub handle_get : ℤ → KeyState → String → Coordinator dict.Dict → Coordinator dict.Dict
  unfolding send_to_esi send_to_scheduler
  handle_get esi_fd key_unblocked key s =
      send_to_esi (everything_ok esi_fd)
        (key_table_create_key dict key none (send_to_scheduler block_the_key s))
  handle_get esi_fd key_blocked_by_executing_esi key s = send_to_esi (everything_ok esi_fd) s
  handle_get esi_fd key_blocked key s = send_to_esi (you_are_blocked esi_fd) s

  -- A SET or a STORE.
  unfoldable pub handle_write :
      CharLib
      → DistributionAlgorithm
      → ℤ
      → KeyState
      → EsiOperation
      → Coordinator dict.Dict
      → Bool × Coordinator dict.Dict
  unfolding push_operation send_to_esi
  handle_write chars distribution esi_fd key_blocked_by_executing_esi operation s =
      let (chosen, t) = dispatch lib dict chars distribution (operation_key operation) none s in
      elim chosen [
        | none ↦ (false, send_to_esi (illegal_operation esi_fd) t)
        | some i ↦ (true, push_operation esi_fd operation i t)
      ]
  handle_write chars distribution esi_fd _ operation s =
      (false, send_to_esi (illegal_operation esi_fd) s)

  -- `state` is what `scheduler_recv_key_state` returns.
  unfoldable pub handle_esi_operation :
      CharLib
      → DistributionAlgorithm
      → ℤ
      → KeyState
      → EsiOperation
      → Coordinator dict.Dict
      → Bool × Coordinator dict.Dict
  unfolding esi_check_key_size handle_get handle_write send_to_esi
  handle_esi_operation chars distribution esi_fd state operation s =
      if esi_check_key_size chars operation
      then elim operation [
        | esi_get key ↦ (true, handle_get esi_fd state key s)
        | esi_set key value ↦ handle_write chars distribution esi_fd state (esi_set key value) s
        | esi_store key ↦ handle_write chars distribution esi_fd state (esi_store key) s
      ]
      else (false, send_to_esi (illegal_operation esi_fd) s)
