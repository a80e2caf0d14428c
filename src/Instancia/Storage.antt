-- ===== src/Instancia/Storage.antt =====
-- instancia/storage.c: the bytes of the entries.
use tp_so_1c.Prelude.{
  ℕ, ◌+◌, ◌*◌, ◌/◌, ◌%◌, ℤ, pos, negsuc, List, ◌++◌, length, take, drop, replicate, ◌==◌, ltb,
  if◌then◌else◌,
}
use tp_so_1c.Outcome.{Outcome, ok, crash}

pub record Storage : Type 0 where
  pub entries : ℕ
  pub entry_size : ℕ
  pub bytes : List ℕ

pub data StorageStatus : Type 0 where
  strg_success : StorageStatus
  strg_error_init : StorageStatus
  strg_error_set : StorageStatus

-- `calloc` gives zeros.
unfoldable pub storage_init : ℕ → ℕ → Storage
storage_init entries entry_size = record {
  entries = entries;
  entry_size = entry_size;
  bytes = replicate (entries * entry_size) 0;
}

-- STRG_LIMIT, from STRG_BASE on.
unfoldable pub strg_limit : Storage → ℕ
strg_limit storage = storage.entries * storage.entry_size

unfoldable pub write_at : List ℕ → ℕ → List ℕ → List ℕ
write_at memory p value = (take p memory ++ value) ++ drop (p + length value) memory

-- A negative entry lies before the storage, and the test lets it pass.
unfoldable pub storage_set : ℤ → List ℕ → Storage → Outcome (StorageStatus × Storage)
unfolding strg_limit write_at
storage_set (negsuc n) value storage = crash
storage_set (pos next_entry) value storage =
    let p = next_entry * storage.entry_size in
    if ltb (strg_limit storage) (p + length value)
    then ok (strg_error_set, storage)
    else ok (strg_success, record storage { bytes = write_at storage.bytes p value })

-- A read past the storage is one of memory that the instance does not own.
unfoldable pub storage_retrieve : ℤ → ℕ → Storage → Outcome (List ℕ)
unfolding strg_limit
storage_retrieve (negsuc n) value_size storage = crash
storage_retrieve (pos entry) value_size storage =
    let p = entry * storage.entry_size in
    if ltb (strg_limit storage) (p + value_size)
    then crash
    else ok (take value_size (drop p storage.bytes))

unfoldable pub storage_required_entries : ℕ → Storage → ℕ
storage_required_entries size storage =
    if ltb size storage.entry_size
    then 1
    else if size % storage.entry_size == 0
    then size / storage.entry_size
    else size / storage.entry_size + 1
