-- ===== src/Instancia/State.antt =====
-- instancia/globals.h and instancia/entry_table.h: what an instance keeps in memory about its keys.
use tp_so_1c.Prelude.{ℕ, ℤ, Bool, String, List}

pub record KeyValue : Type 0 where
  pub key : String
  pub value : List ℕ
  pub size : ℕ

pub record Entry : Type 0 where
  pub number : ℕ
  pub size : ℕ
  pub key : String

-- The table and the number of entries that no key has.
pub record EntryTable : Type 0 where
  pub entries : List Entry
  pub entries_left : ℤ

-- Of the commons: the comparison of strings, and the first characters of a string.
pub record StringLib : Type 0 where
  pub string_equals_ignore_case : String → String → Bool
  pub string_substring_until : String → ℕ → String
