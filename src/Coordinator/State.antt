-- ===== src/Coordinator/State.antt =====
-- The data of coordinador/: the instances, which others point to, their requests, the table of the keys,
-- and the messages to the ESIs. A pointer to an instance is its number in `instances`.
use tp_so_1c.Prelude.{
  ℕ, ℤ, minus_one, String, Bool, ◌==◌, if◌then◌else◌, Option, none, some, same_key, ◌≡◌, false,
  List, ◌∷◌,
}

-- Where `tolower(key[0])` is a `char`, and where `strlen` counts bytes.
pub record CharLib : Type 0 where
  pub lower_first_char : String → ℤ
  pub strlen : String → ℕ

-- `initialized` holds once a SET has succeeded.
pub record KeyTableData : Type 0 where
  pub initialized : Bool
  pub instance_of : Option ℕ

-- The dictionary of so-commons, over the data of the keys.
pub record DictLib : Type 1 where
  pub Dict : Type 0
  pub dictionary_get : Dict → String → Option KeyTableData
  pub dictionary_put : Dict → String → KeyTableData → Dict
  pub dictionary_remove : Dict → String → Dict

-- What its manual says.
pub record DictDocumented (dict : DictLib) : Type 0 where
  pub gets_put :
      (d : dict.Dict) (key : String) (v : KeyTableData)
      → dict.dictionary_get (dict.dictionary_put d key v) key ≡ some v
  pub keeps_put :
      (d : dict.Dict) (key other : String) (v : KeyTableData)
      → same_key key other ≡ false
      → dict.dictionary_get (dict.dictionary_put d key v) other ≡ dict.dictionary_get d other
  pub gets_removed :
      (d : dict.Dict) (key : String) → dict.dictionary_get (dict.dictionary_remove d key) key ≡ none
  pub keeps_removed :
      (d : dict.Dict) (key other : String)
      → same_key key other ≡ false
      → dict.dictionary_get (dict.dictionary_remove d key) other ≡ dict.dictionary_get d other

pub data DistributionAlgorithm : Type 0 where
  lsu el ke : DistributionAlgorithm

pub data RequestType : Type 0 where
  instance_set : String → String → RequestType
  instance_store : String → RequestType

pub record RequestNode : Type 0 where
  pub requesting_esi_fd : ℤ
  pub type : RequestType
  pub excluded_instances : List ℕ

pub record RequestList : Type 0 where
  pub elements : List RequestNode
  pub count : ℕ

pub record Instance : Type 0 where
  pub name : String
  pub fd : ℤ
  pub used_entries : ℕ
  pub requests : RequestList

-- What an ESI is sent.
pub data EsiMessage : Type 0 where
  everything_ok you_are_blocked illegal_operation : ℤ → EsiMessage

-- What the scheduler is told.
pub data SchedulerMessage : Type 0 where
  block_the_key : SchedulerMessage
  unblock_the_key : String → SchedulerMessage

pub record Coordinator (Dict : Type 0) : Type 0 where
  pub instance_list : List ℕ
  pub instances : ℕ → Instance
  pub next_instance : ℕ
  pub key_table : Dict
  pub esi_messages : List EsiMessage
  pub scheduler_messages : List SchedulerMessage

-- `DISCONNECTED`.
abbrev pub disconnected : ℤ
disconnected = minus_one

module _ {Dict : Type 0} where
  -- A write through a pointer to an instance.
  abbrev pub write_instance : ℕ → (Instance → Instance) → Coordinator Dict → Coordinator Dict
  write_instance i f s = record s {
    instances = λ j. if j == i then f (s.instances j) else s.instances j;
  }

  unfoldable pub send_to_esi : EsiMessage → Coordinator Dict → Coordinator Dict
  send_to_esi m s = record s { esi_messages = m ∷ s.esi_messages }

  unfoldable pub send_to_scheduler : SchedulerMessage → Coordinator Dict → Coordinator Dict
  send_to_scheduler m s = record s { scheduler_messages = m ∷ s.scheduler_messages }
