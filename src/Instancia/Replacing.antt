-- ===== src/Instancia/Replacing.antt =====
-- instancia/algorithms.c: which entries a replacement takes.
use tp_so_1c.Prelude.{
  ℕ, ◌+◌, ◌≡◌, inl, inr, ℤ, pos, ◌-ℤ◌, same_int, List, [], ◌∷◌, ◌++◌, length, get_elem?, String,
  Bool-cases, count_if, take, drop, leb, ltb, ◌||◌, ◌==◌,
}
use tp_so_1c.Outcome.{Settles, Settles-weaken, Settles-bind, Settles-deref}
use tp_so_1c.Commons.{ListLib, Documented, Documented-eq, Sort, sequences}
use tp_so_1c.Wire.Messages.{StorageSetup}
use tp_so_1c.Instancia.State.{KeyValue, EntryTable}
use tp_so_1c.Instancia.Algorithms.{
  is_atomic, Status, Replacement, replace_entry, sweep, circular_sweeps, start, algorithm_circular,
  algorithm_lru, add_same_size, bsu_loop, algorithm_bsu, algorithms_exec, must_replace,
  sorted_pointers, smallest_reference, biggest_size, key_value_generator,
}
use tp_so_1c.Instancia.Steps.{is_used, Takes, nothing, one, Takes-trans, Takes-counts}

-- What the steps from one replacement to another are.
abbrev pub From : Replacement → Replacement → Type 0
From r t = Takes r.statuses r.replaced_keys t.statuses t.replaced_keys

module _ (sort : Sort) where
  replace_entry-From :
      (i : ℕ) (r : Replacement) → Settles (From r) (replace_entry (sequences sort) i r)
  unfolding replace_entry
  replace_entry-From i r = Settles-deref (From r) (get_elem? r.statuses i) _ λ status h.
      elim (Bool-cases (is_atomic status.status)) [
        | inl e ↦ rw e (one r.statuses r.replaced_keys i status _ _ h e (nothing _ _))
        | inr e ↦ rw e (nothing r.statuses r.replaced_keys)
      ]

  sweep-From :
      (pointers : List ℕ) (r : Replacement)
      → Settles (λ p. From r p.0) (sweep (sequences sort) pointers r)
  unfolding sweep
  sweep-From [] r = nothing _ _
  sweep-From (i ∷ pointers) r = elim (Bool-cases (same_int r.entries_needed (pos 0))) [
    | inl e ↦ rw e (nothing _ _)
    | inr e ↦ rw e (
        Settles-bind (From r) (λ p. From r p.0) (replace_entry (sequences sort) i r) _
          (replace_entry-From i r)
          λ t h.
            Settles-bind (λ p. From t p.0) (λ p. From r p.0) (sweep (sequences sort) pointers t) _
              (sweep-From pointers t) λ p k. Takes-trans _ _ _ _ _ _ h k)
  ]

  circular_sweeps-From :
      (pointer : ℕ) (pointers : List ℕ) (r : Replacement)
      → Settles (λ p. From r p.0) (circular_sweeps (sequences sort) pointer pointers r)
  unfolding circular_sweeps
  circular_sweeps-From pointer pointers r =
      elim (Bool-cases (leb (length pointers) pointer || pointer == 0)) [
        | inl e ↦ rw e (sweep-From pointers r)
        | inr e ↦ rw e (
            Settles-bind (λ p. From r p.0) (λ p. From r p.0)
              (sweep (sequences sort) (drop pointer pointers) r) _
              (sweep-From (drop pointer pointers) r)
              λ p h.
                Settles-bind (λ q. From p.0 q.0) (λ q. From r q.0)
                  (sweep (sequences sort) (take pointer pointers) p.0) _
                  (sweep-From (take pointer pointers) p.0) λ q k. Takes-trans _ _ _ _ _ _ h k)
      ]

  module _ (setup : StorageSetup) (table : EntryTable) where
    -- What an algorithm takes, from the statuses and keys that it is given.
    abbrev pub Ends : List Status → List String → ℤ × (ℕ × Replacement) → Type 0
    Ends statuses keys (result, (pointer, r)) = Takes statuses keys r.statuses r.replaced_keys

    circular-Ends :
        (pointer : ℕ) (pointers : List ℕ) (key_value : KeyValue) (statuses : List Status)
        (keys : List String)
        → Settles (Ends statuses keys) (
            algorithm_circular
              (sequences sort)
              setup
              table
              pointer
              pointers
              key_value
              statuses
              keys)
    unfolding algorithm_circular
    circular-Ends pointer pointers key_value statuses keys =
        elim (Bool-cases (must_replace setup table key_value)) [
          | inl e ↦ rw e (
              Settles-bind (λ p. From first p.0) (Ends statuses keys)
                (circular_sweeps (sequences sort) pointer pointers first) _
                (circular_sweeps-From pointer pointers first) λ p h. h)
          | inr e ↦ rw e (nothing statuses keys)
        ]
      where
        first : Replacement
        first = start (sequences sort) setup table statuses keys key_value

    lru-Ends :
        (key_value : KeyValue) (statuses : List Status) (keys : List String)
        → Settles
            (λ p. Takes statuses keys p.1.statuses p.1.replaced_keys)
            (algorithm_lru (sequences sort) setup table key_value statuses keys)
    unfolding algorithm_lru
    lru-Ends key_value statuses keys = elim (Bool-cases (must_replace setup table key_value)) [
      | inl e ↦ rw e (
          Settles-bind (λ p. From first p.0)
            (λ p. Takes statuses keys p.1.statuses p.1.replaced_keys)
            (sweep (sequences sort) pointers first) _ (sweep-From pointers first) λ p h. h)
      | inr e ↦ rw e (nothing statuses keys)
    ]
      where
        first : Replacement
        first = start (sequences sort) setup table statuses keys key_value

        pointers : List ℕ
        pointers = sorted_pointers (sequences sort) setup table smallest_reference statuses

    add_same_size-Settles :
        (space : ℤ) (pointers : List ℕ) (statuses : List Status) (same : List ℕ)
        → Settles
            (λ _. Unit {0})
            (add_same_size (sequences sort) setup table space pointers statuses same)
    unfolding add_same_size
    add_same_size-Settles space [] statuses same = tt
    add_same_size-Settles space (j ∷ pointers) statuses same =
        Settles-deref (λ _. Unit {0}) (get_elem? statuses j) _
          λ status h. add_same_size-Settles space pointers statuses _

    bsu_loop-From :
        (key_value : KeyValue) (pointers same : List ℕ) (pointer : ℕ) (r : Replacement)
        → Settles
            (λ p. From r p.0)
            (bsu_loop (sequences sort) setup table key_value pointers same pointer r)
    unfolding bsu_loop
    bsu_loop-From key_value [] same pointer r = nothing _ _
    bsu_loop-From key_value (i ∷ later) same pointer r =
        elim (Bool-cases (same_int r.entries_needed (pos 0))) [
          | inl e ↦ rw e (nothing _ _)
          | inr e ↦ rw e (
              Settles-deref (λ p. From r p.0) (get_elem? r.statuses i) _
                λ status h. elim (Bool-cases (is_atomic status.status)) [
                  | inr other ↦ rw other (bsu_loop-From key_value later same pointer r)
                  | inl here ↦ rw here (
                      Settles-bind (λ _. Unit {0}) (λ p. From r p.0)
                        (add_same_size (sequences sort) setup table status.space_used (i ∷ later)
                          r.statuses same)
                        _ (add_same_size-Settles status.space_used (i ∷ later) r.statuses same)
                        λ found _. elim (Bool-cases (ltb 1 (length found))) [
                          | inl many ↦ rw many (
                              Settles-bind (Ends r.statuses r.replaced_keys) (λ p. From r p.0)
                                (algorithm_circular (sequences sort) setup table pointer found
                                  (key_value_generator (sequences sort) setup table key_value.key
                                    r.entries_needed)
                                  r.statuses r.replaced_keys)
                                _
                                (circular-Ends pointer found
                                  (key_value_generator (sequences sort) setup table key_value.key
                                    r.entries_needed)
                                  r.statuses r.replaced_keys)
                                λ q k.
                                  Settles-weaken (λ p. From q.1.1 p.0) (λ p. From r p.0) _
                                    (bsu_loop-From key_value later found q.1.0
                                      (record q.1.1 { entries_needed = r.entries_needed -ℤ q.0 }))
                                    λ p h. Takes-trans _ _ _ _ _ _ k h)
                          | inr single ↦ rw single (
                              Settles-bind (From r) (λ p. From r p.0)
                                (replace_entry (sequences sort) i r) _ (replace_entry-From i r)
                                λ t k.
                                  Settles-weaken (λ p. From t p.0) (λ p. From r p.0) _
                                    (bsu_loop-From key_value later found pointer t)
                                    λ p h. Takes-trans _ _ _ _ _ _ k h)
                        ])
                ])
        ]

    bsu-Ends :
        (pointer : ℕ) (key_value : KeyValue) (statuses : List Status) (keys : List String)
        → Settles
            (Ends statuses keys)
            (algorithm_bsu (sequences sort) setup table pointer key_value statuses keys)
    unfolding algorithm_bsu
    bsu-Ends pointer key_value statuses keys =
        elim (Bool-cases (must_replace setup table key_value)) [
          | inl e ↦ rw e (
              Settles-bind (λ p. From first p.0) (Ends statuses keys)
                (bsu_loop (sequences sort) setup table key_value pointers [] pointer first) _
                (bsu_loop-From key_value pointers [] pointer first) λ p h. h)
          | inr e ↦ rw e (nothing statuses keys)
        ]
      where
        first : Replacement
        first = start (sequences sort) setup table statuses keys key_value

        pointers : List ℕ
        pointers = sorted_pointers (sequences sort) setup table biggest_size statuses

    exec-Ends :
        (algorithm_id pointer : ℕ) (key_value : KeyValue) (statuses : List Status)
        (keys : List String)
        → Settles (Ends statuses keys) (
            algorithms_exec
              (sequences sort)
              setup
              table
              algorithm_id
              pointer
              key_value
              statuses
              keys)
    unfolding algorithms_exec
    exec-Ends algorithm_id pointer key_value statuses keys =
        elim (Bool-cases (algorithm_id == 67)) [
          | inl c ↦ rw c (circular-Ends pointer _ key_value statuses keys)
          | inr c ↦ rw c (elim (Bool-cases (algorithm_id == 76)) [
            | inl l ↦ rw l (
                Settles-bind (λ p. Takes statuses keys p.1.statuses p.1.replaced_keys)
                  (Ends statuses keys)
                  (algorithm_lru (sequences sort) setup table key_value statuses keys) _
                  (lru-Ends key_value statuses keys) λ p h. h)
            | inr l ↦ rw l (elim (Bool-cases (algorithm_id == 66)) [
              | inl b ↦ rw b (bsu-Ends pointer key_value statuses keys)
              | inr b ↦ rw b (nothing statuses keys)
            ])
          ])
        ]

-- The result of a replacement: step by step atomic entries became used and their keys were added, as
-- many as there are entries used more.
abbrev pub Replaces : List Status → List String → ℤ × (ℕ × Replacement) → Type 0
Replaces statuses keys (result, (pointer, r)) =
    Takes statuses keys r.statuses r.replaced_keys
    × (added : List String) × (r.replaced_keys ≡ keys ++ added
        × count_if is_used r.statuses ≡ count_if is_used statuses + length added)

-- A replacement by any of the algorithms, where it meets no bad pointer, only takes entries that are
-- atomic, and adds to the replaced keys the key of each entry it takes and no other.
pub algorithms_exec-Replaces :
    (lib : ListLib)
    → Documented lib
    → (setup : StorageSetup) (table : EntryTable) (algorithm_id pointer : ℕ) (key_value : KeyValue)
      (statuses : List Status) (keys : List String)
    → Settles
        (Replaces statuses keys)
        (algorithms_exec lib setup table algorithm_id pointer key_value statuses keys)
algorithms_exec-Replaces lib manual setup table algorithm_id pointer key_value statuses keys =
    rw (Documented-eq manual) (
      Settles-weaken (Ends sort setup table statuses keys) (Replaces statuses keys)
        (algorithms_exec (sequences sort) setup table algorithm_id pointer key_value statuses keys)
        (exec-Ends sort setup table algorithm_id pointer key_value statuses keys)
        λ p t.
          let q = Takes-counts statuses keys p.1.1.statuses p.1.1.replaced_keys t in (t, q.0, q.1))
  where
    sort : Sort
    sort = λ A. lib.list_sort {A = A}
