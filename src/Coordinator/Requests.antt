-- ===== src/Coordinator/Requests.antt =====
-- coordinador/instance-list/instance-request-list.c: the requests that wait for an instance.
use tp_so_1c.Prelude.{zero, suc, ℤ, String, [], Option}
use tp_so_1c.Outcome.{Outcome, ok, hang}
use tp_so_1c.Commons.{ListLib}
use tp_so_1c.Coordinator.State.{RequestNode, RequestList, instance_set, instance_store}

unfoldable pub request_list_create : RequestList
request_list_create = record { elements = []; count = 0 }

unfoldable pub request_node_create_set : ℤ → String → String → RequestNode
request_node_create_set esi_fd key value = record {
  requesting_esi_fd = esi_fd;
  type = instance_set key value;
  excluded_instances = [];
}

unfoldable pub request_node_create_store : ℤ → String → RequestNode
request_node_create_store esi_fd key = record {
  requesting_esi_fd = esi_fd;
  type = instance_store key;
  excluded_instances = [];
}

module _ (lib : ListLib) where
  unfoldable pub request_list_push : RequestNode → RequestList → RequestList
  request_list_push elem l = record {
    elements = lib.queue_push l.elements elem;
    count = suc l.count;
  }

  unfoldable pub request_list_push_set : ℤ → String → String → RequestList → RequestList
  unfolding request_list_push request_node_create_set
  request_list_push_set esi_fd key value l =
      request_list_push (request_node_create_set esi_fd key value) l

  unfoldable pub request_list_push_store : ℤ → String → RequestList → RequestList
  unfolding request_list_push request_node_create_store
  request_list_push_store esi_fd key l = request_list_push (request_node_create_store esi_fd key) l

  -- `sem_wait` blocks while the count is 0.
  unfoldable pub request_list_pop : RequestList → Outcome (Option RequestNode × RequestList)
  request_list_pop l = elim l.count [
    | zero ↦ hang
    | suc n ↦
        let (node, rest) = lib.queue_pop l.elements in
        ok (node, record { elements = rest; count = n })
  ]
