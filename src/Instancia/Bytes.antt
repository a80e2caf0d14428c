-- ===== src/Instancia/Bytes.antt =====
-- instancia/storage.c: what a write leaves where.
use tp_so_1c.Prelude.{
  take-whole, ℕ, zero, suc, ◌+◌, ◌-◌, ◌*◌, ◌≤◌, ◌≡◌, refl, sym, ap, ◌∙◌, arith, ◌⊎◌, inl, inr, pos,
  List, [], ◌∷◌, ◌++◌, length, length-append, length-take, length-drop, take, drop,
  take-append-drop, ltb, false, if◌then◌else◌,
}
use tp_so_1c.Outcome.{ok, crash}
use tp_so_1c.Instancia.Storage.{
  Storage, StorageStatus, strg_success, strg_limit, write_at, storage_set, storage_retrieve,
}

drop-append_le :
    (xs ys : List ℕ) (p : ℕ) → length xs ≤ p → drop p (xs ++ ys) ≡ drop (p - length xs) ys
drop-append_le [] ys p h = ap (λ n. drop n ys) (omega arith)
drop-append_le (x ∷ xs) ys zero h = elim h [ ]
drop-append_le (x ∷ xs) ys (suc p) h =
    drop-append_le xs ys p (omega (arith, h)) ∙ ap (λ n. drop n ys) (omega arith)

take-drop-append :
    (xs ys : List ℕ) (p k : ℕ) → p + k ≤ length xs → take k (drop p (xs ++ ys)) ≡ take k (drop p xs)
take-drop-append xs ys p zero h = refl
take-drop-append [] ys p (suc k) h = absurd (omega (arith, h))
take-drop-append (x ∷ xs) ys zero (suc k) h =
    ap (λ l. x ∷ l) (take-drop-append xs ys zero k (omega (arith, h)))
take-drop-append (x ∷ xs) ys (suc p) (suc k) h = take-drop-append xs ys p (suc k) (omega (arith, h))

-- The first part of a list that is long enough.
pub length-take_le : (n : ℕ) (xs : List ℕ) → n ≤ length xs → length (take n xs) ≡ n
length-take_le n xs h = omega (arith, length-take n xs, h)

module _ (memory : List ℕ) (p : ℕ) (value : List ℕ) (fits : p + length value ≤ length memory) where
  before_end : length (take p memory ++ value) ≡ p + length value
  before_end =
      omega
        (arith, length-append (take p memory) value, length-take_le p memory (omega (arith, fits)))

  length-write_at : length (write_at memory p value) ≡ length memory
  unfolding write_at
  length-write_at = omega (
    arith,
    length-append (take p memory ++ value) (drop (p + length value) memory),
    before_end,
    length-drop (p + length value) memory,
    fits,
  )

  write_at_here : take (length value) (drop p (write_at memory p value)) ≡ value
  unfolding write_at
  write_at_here =
      take-drop-append (take p memory ++ value) (drop (p + length value) memory) p (length value)
        (omega (arith, before_end))
      ∙ ap (take (length value)) (
          drop-append_le (take p memory) value p (omega (arith, start))
          ∙ ap (λ n. drop n value) reaches)
      ∙ take-whole (length value) value (omega arith)
    where
      start : length (take p memory) ≡ p
      start = length-take_le p memory (omega (arith, fits))

      reaches : p - length (take p memory) ≡ 0
      reaches = omega (arith, start)

  write_at_before :
      (q k : ℕ) → q + k ≤ p → take k (drop q (write_at memory p value)) ≡ take k (drop q memory)
  unfolding write_at
  write_at_before q k h =
      take-drop-append (take p memory ++ value) (drop (p + length value) memory) q k
        (omega (arith, before_end, h))
      ∙ take-drop-append (take p memory) value q k (omega (arith, h, start))
      ∙ sym (take-drop-append (take p memory) (drop p memory) q k (omega (arith, h, start)))
      ∙ ap (λ l. take k (drop q l)) (take-append-drop p memory)
    where
      start : length (take p memory) ≡ p
      start = length-take_le p memory (omega (arith, fits))

  write_at_after :
      (q k : ℕ)
      → p + length value ≤ q
      → take k (drop q (write_at memory p value)) ≡ take k (drop q memory)
  unfolding write_at
  write_at_after q k h = ap (take k) (
      drop-append_le (take p memory ++ value) (drop n memory) q (omega (arith, before_end, h))
      ∙ ap (λ m. drop m (drop n memory)) same_rest
      ∙ sym (drop-append_le (take n memory) (drop n memory) q (omega (arith, start, h)))
      ∙ ap (drop q) (take-append-drop n memory))
    where
      n : ℕ
      n = p + length value

      start : length (take n memory) ≡ n
      start = length-take_le n memory fits

      same_rest : q - length (take p memory ++ value) ≡ q - length (take n memory)
      same_rest = omega (arith, before_end, start)

-- The memory is as large as the entries together.
abbrev pub IsWhole : Storage → Type 0
IsWhole storage = length storage.bytes ≡ storage.entries * storage.entry_size

-- The bytes from an entry on that a value takes.
abbrev pub Apart : Storage → ℕ → ℕ → ℕ → ℕ → Type 0
Apart storage i m j n =
    (i * storage.entry_size + m ≤ j * storage.entry_size)
    ⊎ (j * storage.entry_size + n ≤ i * storage.entry_size)

-- What a write of a value at an entry gives: the storage is still whole, the value is read back, and
-- every value that lies apart from it is read as before.
abbrev pub Writes : Storage → ℕ → List ℕ → Storage → Type 0
Writes storage i value after =
    IsWhole after
    × storage_retrieve (pos i) (length value) after ≡ ok value
    × ((j n : ℕ)
        → Apart storage i (length value) j n
        → storage_retrieve (pos j) n after ≡ storage_retrieve (pos j) n storage)

-- A write of a value that fits from an entry on succeeds; the storage is whole again, the value is
-- read back, and every value that lies apart from it is read as before.
pub storage_set-Writes :
    (storage : Storage) (i : ℕ) (value : List ℕ)
    → IsWhole storage
    → i * storage.entry_size + length value ≤ storage.entries * storage.entry_size
    → (after : Storage) × (storage_set (pos i) value storage ≡ ok (strg_success, after)
        × Writes storage i value after)
unfolding storage_set storage_retrieve strg_limit
storage_set-Writes storage i value w h = (
  record storage { bytes = write_at storage.bytes p value },
  (
    rw runs refl,
    (
      length-write_at storage.bytes p value fits ∙ w,
      rw runs (ap ok (write_at_here storage.bytes p value fits)),
      λ j n a.
          ap
            (λ l.
              if ltb (storage.entries * storage.entry_size) (j * storage.entry_size + n)
              then crash
              else ok l)
            (elim a [
              | inl e ↦ write_at_after storage.bytes p value fits (j * storage.entry_size) n e
              | inr e ↦ write_at_before storage.bytes p value fits (j * storage.entry_size) n e
            ]),
    ),
  ),
)
  where
    p : ℕ
    p = i * storage.entry_size

    fits : p + length value ≤ length storage.bytes
    fits = omega (arith, w, h)

    runs : ltb (storage.entries * storage.entry_size) (p + length value) ≡ false
    runs = ground (arith, h)

-- A write leaves the sizes of the storage.
pub storage_set-sizes :
    (storage : Storage) (i : ℕ) (value : List ℕ) (status : StorageStatus) (after : Storage)
    → storage_set (pos i) value storage ≡ ok (status, after)
    → (after.entries ≡ storage.entries) × (after.entry_size ≡ storage.entry_size)
unfolding storage_set
storage_set-sizes storage i value status after h = ground arith
