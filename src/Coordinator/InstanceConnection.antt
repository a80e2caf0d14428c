-- ===== src/Coordinator/InstanceConnection.antt =====
-- coordinador/connection/instance-connection.c: the thread of an instance, which carries out the
-- requests that wait for it.
use tp_so_1c.Prelude.{
  ℕ, ℤ, pos, negsuc, same_int, String, Bool, true, false, not, ◌&&◌, ◌||◌, none, some,
  if◌then◌else◌,
}
use tp_so_1c.Outcome.{Outcome, ok, ◌>>=◌, deref}
use tp_so_1c.Commons.{ListLib}
use tp_so_1c.Coordinator.State.{
  Coordinator, CharLib, DictLib, DistributionAlgorithm, RequestNode, instance_set, instance_store,
  everything_ok, illegal_operation, send_to_esi, send_to_scheduler, unblock_the_key, write_instance,
}
use tp_so_1c.Coordinator.KeyTable.{key_table_remove, key_table_set_initialized, key_table_is_new}
use tp_so_1c.Coordinator.InstanceList.{instance_list_remove}
use tp_so_1c.Coordinator.Distribution.{dispatch}
use tp_so_1c.Coordinator.Requests.{request_list_push, request_list_pop}

-- What the instance answers to an instruction: nothing, as it could not be sent or was not answered,
-- or a status, after a SET with the number of used entries.
pub data Reply : Type 0 where
  not_sent not_answered : Reply
  status : ℤ → ℕ → Reply

module _ (lib : ListLib) (dict : DictLib) (chars : CharLib)
    (distribution : DistributionAlgorithm) where
  unfoldable pub instance_dispatch_failed_set :
      ℕ → String → RequestNode → Coordinator dict.Dict → Coordinator dict.Dict
  unfolding send_to_esi request_list_push
  instance_dispatch_failed_set failed_instance key request s =
      let retried = record request {
        excluded_instances = lib.list_add request.excluded_instances failed_instance;
      } in
      let (chosen, t) =
        dispatch lib dict chars distribution key (some retried.excluded_instances) s in
      elim chosen [
        | none ↦ send_to_esi (illegal_operation retried.requesting_esi_fd) t
        | some i ↦
            write_instance i (λ x. record x { requests = request_list_push lib retried x.requests })
              t
      ]

  -- The key is forgotten and the SET goes to another instance.
  unfoldable pub retry_set :
      ℕ → String → RequestNode → Coordinator dict.Dict → Coordinator dict.Dict
  unfolding key_table_remove instance_dispatch_failed_set
  retry_set i key request s =
      instance_dispatch_failed_set i key request (key_table_remove dict key s)

  -- The key is forgotten and the ESI is told of an illegal operation.
  unfoldable pub abort_request :
      String → RequestNode → Coordinator dict.Dict → Coordinator dict.Dict
  unfolding key_table_remove send_to_esi
  abort_request key request s =
      send_to_esi (illegal_operation request.requesting_esi_fd) (key_table_remove dict key s)

  unfoldable pub succeed_set : String → RequestNode → Coordinator dict.Dict → Coordinator dict.Dict
  unfolding key_table_set_initialized send_to_esi
  succeed_set key request s =
      let (known, t) = key_table_set_initialized dict key s in
      send_to_esi (everything_ok request.requesting_esi_fd) t

  -- The switch on the status of a SET. The compaction that status 2 asks for leaves this state alone.
  unfoldable pub finish_set :
      ℤ → ℕ → String → RequestNode → Coordinator dict.Dict → Bool × Coordinator dict.Dict
  unfolding retry_set abort_request succeed_set
  finish_set code i key request s =
      if same_int code (pos 1) || same_int code (pos 2)
      then (true, succeed_set key request s)
      else if same_int code (pos 0)
      then (true, abort_request key request s)
      else (same_int code (negsuc 0) || same_int code (negsuc 1), retry_set i key request s)

  unfoldable pub instance_handle_set_request :
      ℕ → String → RequestNode → Reply → Coordinator dict.Dict → Bool × Coordinator dict.Dict
  unfolding finish_set retry_set
  instance_handle_set_request i key request (status code used_entries) s =
      finish_set code i key request
        (write_instance i (λ x. record x { used_entries = used_entries }) s)
  instance_handle_set_request i key request _ s = (false, retry_set i key request s)

  unfoldable pub finish_store :
      ℤ → String → RequestNode → Coordinator dict.Dict → Bool × Coordinator dict.Dict
  unfolding abort_request send_to_esi send_to_scheduler
  finish_store code key request s =
      if same_int code (pos 1)
      then (
        true,
        send_to_esi (everything_ok request.requesting_esi_fd)
            (send_to_scheduler (unblock_the_key key) s),
      )
      else (same_int code (pos 0), abort_request key request s)

  unfoldable pub instance_handle_store_request :
      String → RequestNode → Reply → Coordinator dict.Dict → Bool × Coordinator dict.Dict
  unfolding finish_store abort_request key_table_is_new
  instance_handle_store_request key request reply s =
      if key_table_is_new dict key s then (true, abort_request key request s) else elim reply [
        | status code _ ↦ finish_store code key request s
        | _ ↦ (false, abort_request key request s)
      ]

  unfoldable pub handle_request :
      ℕ → RequestNode → Reply → Coordinator dict.Dict → Bool × Coordinator dict.Dict
  unfolding instance_handle_set_request instance_handle_store_request
  handle_request i request reply s = elim request.type [
    | instance_set key value ↦ instance_handle_set_request i key request reply s
    | instance_store key ↦ instance_handle_store_request key request reply s
  ]

  -- One turn of the thread's loop, for the socket `fd`: whether it goes on.
  unfoldable pub attend_request :
      ℕ → ℤ → Reply → Coordinator dict.Dict → Outcome (Bool × Coordinator dict.Dict)
  unfolding handle_request request_list_pop request_list_push instance_list_remove
  attend_request i fd reply s = do
    (node, rest) ← request_list_pop lib (s.instances i).requests
    request ← deref node
    let t = write_instance i (λ x. record x { requests = rest }) s
    if not (same_int fd (t.instances i).fd)
        then ok (
          false,
          write_instance i (λ x. record x { requests = request_list_push lib request x.requests })
              t,
        )
        else (let (success, u) = handle_request i request reply t in
            if not success && same_int fd (u.instances i).fd
            then (let (victim, v) = instance_list_remove lib (u.instances i).name u in
                ok (false, v))
            else ok (success, u))
