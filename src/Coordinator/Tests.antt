-- ===== src/Coordinator/Tests.antt =====
-- Two instances, on which the theorems about coordinador/ are used.
use tp_so_1c.Prelude.{
  ℕ, ◌+◌, ◌≤◌, ◌≡◌, ◌≢◌, count_if, refl, pos, same_int, same_key, arith, ◌==◌, String, [], ◌∷◌,
  Option, some, none, eq_iff, if◌then◌else◌,
}
use tp_so_1c.Commons.Insertion.{list_lib, list_lib-Documented, insertion_sort}
use tp_so_1c.Coordinator.State.{
  Coordinator, CharLib, DictLib, DictDocumented, KeyTableData, Instance, lsu, el, ke, disconnected,
}
use tp_so_1c.Coordinator.KeyTable.{key_table_get, key_table_get_instance}
use tp_so_1c.Coordinator.InstanceList.{
  instance_list_size, instance_is_available, instance_is_connected, instance_list_pop,
  instance_list_first, list_contains,
}
use tp_so_1c.Coordinator.Distribution.{
  dispatch, distribute, equitative_load, least_space_used, sort_by_used_space,
}
use tp_so_1c.Coordinator.Dispatch.{dispatch-Recorded, Recorded}
use tp_so_1c.Coordinator.Load.{least_space_used-smallest}
use tp_so_1c.Coordinator.Rotation.{dispatch-keeps_instances}
use tp_so_1c.Coordinator.Exclusion.{listed, dispatch_available}
use tp_so_1c.Coordinator.Availability.{dispatch-IsFound, IsFound}
use tp_so_1c.Coordinator.Semaphores.{
  receives_code, init_exchange, Exchange, here, next, takes_turn, has_turn, one_reader,
}

-- A dictionary as a function.
abbrev pub functions : DictLib
functions = record {
  Dict = String → Option KeyTableData;
  dictionary_get = λ d key. d key;
  dictionary_put = λ d key v other. if same_key key other then some v else d other;
  dictionary_remove = λ d key other. if same_key key other then none else d other;
}

functions-DictDocumented : DictDocumented functions
functions-DictDocumented = record {
  gets_put = λ d key v. rw ((eq_iff key key).1 refl) refl;
  keeps_put = λ d key other v h. rw h refl;
  gets_removed = λ d key. rw ((eq_iff key key).1 refl) refl;
  keeps_removed = λ d key other h. rw h refl;
}

-- Every key begins with "m".
abbrev pub letters : CharLib
letters = record { lower_first_char = λ _. pos 109; strlen = λ _. 5 }

abbrev pub instance_at : ℕ → Instance
instance_at i = record {
  name = if i == 0 then "one" else "two";
  fd = pos (if i == 0 then 7 else 8);
  used_entries = if i == 0 then 4 else 2;
  requests = record { elements = []; count = 0 };
}

abbrev pub two_instances : Coordinator (String → Option KeyTableData)
two_instances = record {
  instance_list = 0 ∷ 1 ∷ [];
  instances = instance_at;
  next_instance = 2;
  key_table = λ _. none;
  esi_messages = [];
  scheduler_messages = [];
}

dispatch-Recorded_example :
    Recorded functions list_lib "mate" two_instances
      (dispatch list_lib functions letters lsu "mate" none two_instances)
dispatch-Recorded_example =
    dispatch-Recorded list_lib-Documented functions-DictDocumented letters lsu "mate" none
      two_instances

dispatch-IsFound_example :
    IsFound (dispatch list_lib functions letters ke "mate" (some (0 ∷ [])) two_instances)
unfolding instance_list_size instance_is_available instance_is_connected same_int
dispatch-IsFound_example =
    dispatch-IsFound list_lib-Documented functions letters ke "mate" (some (0 ∷ [])) two_instances
      (109, refl, omega arith, omega arith, omega arith) (omega arith)

least_space_used-smallest_example :
    (two_instances.instances 1).used_entries ≤ (two_instances.instances 0).used_entries
unfolding least_space_used sort_by_used_space instance_is_available instance_is_connected same_int
    insertion_sort
least_space_used-smallest_example =
    least_space_used-smallest list_lib-Documented functions "mate" none two_instances 1 0 refl
      (omega arith) refl

dispatch_available_example :
    ((two_instances.instances 0).fd ≢ disconnected)
    × (count_if (λ j. j == 0) (listed (some (1 ∷ []))) ≡ 0)
unfolding dispatch distribute equitative_load instance_list_pop instance_list_first
    instance_is_available instance_is_connected list_contains key_table_get_instance key_table_get
    same_int
dispatch_available_example =
    dispatch_available list_lib-Documented functions letters el "mate" (some (1 ∷ [])) two_instances
      0 refl refl

dispatch-keeps_instances_example :
    count_if
      (λ i. i == 1)
      (dispatch list_lib functions letters el "mate" none two_instances).1.instance_list
    ≡ count_if (λ i. i == 1) two_instances.instance_list
dispatch-keeps_instances_example =
    dispatch-keeps_instances list_lib-Documented functions letters el "mate" none two_instances
      (λ i. i == 1)

-- After the listening thread has taken the turn.
abbrev listening : Exchange
listening = record init_exchange { protocol_recv_sem = 0; listener = receives_code }

one_reader_example :
    (has_turn listening.listener + listening.answered ≤ 1)
    × (listening.listener ≡ receives_code
        → (listening.pending_protocol_sem ≡ 0) × (listening.answered ≡ 0))
one_reader_example = one_reader (next here (takes_turn 0 refl refl))
