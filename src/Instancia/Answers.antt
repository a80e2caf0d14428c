-- ===== src/Instancia/Answers.antt =====
-- instancia/instancia.c: what an instance answers when it is asked for the value of a key.
use tp_so_1c.Prelude.{
  ℕ, ◌+◌, ◌≤◌, ◌<◌, ◌≡◌, refl, sym, ap, ◌∙◌, subst, arith, String, List, [], ◌∷◌, ◌++◌, Bool, true,
  false, Bool-cases, inl, inr, pos, Option, none, some, same_key, eq_iff, find_first, count_if,
  count_if-append, Option-cases, length,
}
use tp_so_1c.Outcome.{Outcome, ok, crash, hang, ◌>>=◌}
use tp_so_1c.Commons.{All}
use tp_so_1c.Wire.Bytes.{c_string}
use tp_so_1c.Wire.Messages.{StorageSetup}
use tp_so_1c.Instancia.State.{Entry}
use tp_so_1c.Instancia.EntryTable.{req_entries, entry_table_get_entry}
use tp_so_1c.Instancia.Layout.{Laid, HasRoom}
use tp_so_1c.Instancia.Cells.{HasRoom-from}
use tp_so_1c.Instancia.Storage.{Storage, storage_retrieve}
use tp_so_1c.Instancia.Bytes.{Apart, Writes}
use tp_so_1c.Instancia.Requests.{StatusCi, status_ok, status_replaced, Memory, instance_status}
use tp_so_1c.Instancia.Packed.{
  pack_from, same_entry, same_entry_self, eq_of_same_entry, count-zero-find,
}
use tp_so_1c.Instancia.Values.{values, ends_before, Laid-Apart}
use tp_so_1c.Instancia.Moving.{keys_named, same_key_self}

-- The answer that a read of the storage leads to.
abbrev pub string_answer : Outcome (List ℕ) → Outcome (StatusCi × Option (List ℕ))
string_answer (ok value) = ok (status_ok, some (c_string value))
string_answer crash = crash
string_answer hang = hang

abbrev pub answer : Option Entry → Storage → Outcome (StatusCi × Option (List ℕ))
answer none storage = ok (status_replaced, none)
answer (some e) storage = string_answer (storage_retrieve (pos e.number) e.size storage)

string_answer-bind :
    (r : Outcome (List ℕ)) → (do value ← r; ok (status_ok, some (c_string value))) ≡ string_answer r
string_answer-bind (ok value) = refl
string_answer-bind crash = refl
string_answer-bind hang = refl

pub instance_status-answer :
    (key : String) (m : Memory)
    → instance_status key m
      ≡ answer (find_first (λ e. same_key key e.key) m.table.entries) m.storage
unfolding instance_status entry_table_get_entry
instance_status-answer key m = go (find_first (λ e. same_key key e.key) m.table.entries)
  where
    go :
        (o : Option Entry)
        → (elim o [
          | none ↦ ok (status_replaced, none)
          | some entry ↦ do
            value ← storage_retrieve (pos entry.number) entry.size m.storage
            ok (status_ok, some (c_string value))
        ])
          ≡ answer o m.storage
    go none = refl
    go (some e) = string_answer-bind (storage_retrieve (pos e.number) e.size m.storage)

head_of : List (Outcome (List ℕ)) → Outcome (List ℕ)
head_of [] = crash
head_of (v ∷ vs) = v

tail_of : List (Outcome (List ℕ)) → List (Outcome (List ℕ))
tail_of [] = []
tail_of (v ∷ vs) = vs

-- Where the values of a table are the same side by side, so is each answer.
pub answer-pack_from :
    (setup : StorageSetup) (key : String) (before after : Storage) (c : ℕ) (entries : List Entry)
    → values after (pack_from setup c entries) ≡ values before entries
    → answer (find_first (λ e. same_key key e.key) (pack_from setup c entries)) after
      ≡ answer (find_first (λ e. same_key key e.key) entries) before
unfolding storage_retrieve head_of tail_of
answer-pack_from setup key before after c [] h = refl
answer-pack_from setup key before after c (e ∷ later) h = elim (Bool-cases (same_key key e.key)) [
  | inl hit ↦ rw hit (ap string_answer (ap head_of h))
  | inr miss ↦
      rw miss (
        answer-pack_from setup key before after (c + req_entries setup e.size) later (ap tail_of h))
]

count-same_entry-le :
    (p : Entry → Bool) (a : Entry) (ys : List Entry)
    → p a ≡ true
    → count_if (same_entry a) ys ≤ count_if p ys
count-same_entry-le p a [] h = omega arith
count-same_entry-le p a (y ∷ ys) h = elim (Bool-cases (same_entry a y)) [
  | inl e ↦
      let hit : p y ≡ true = subst (λ x. p x ≡ true) (eq_of_same_entry a y e) h in
      rw (e, hit) (omega (arith, count-same_entry-le p a ys h))
  | inr e ↦ ground (arith, e, count-same_entry-le p a ys h)
]

-- The only hit in a list is what a search finds.
pub find_first-only :
    (p : Entry → Bool) (a : Entry) (ys : List Entry)
    → p a ≡ true
    → count_if p ys ≤ 1
    → 0 < count_if (same_entry a) ys
    → find_first p ys ≡ some a
find_first-only p a [] h c k = elim k [ ]
find_first-only p a (y ∷ ys) h c k = elim (Bool-cases (same_entry a y)) [
  | inl e ↦ subst (λ z. find_first p (z ∷ ys) ≡ some a) (eq_of_same_entry a y e) (rw h refl)
  | inr e ↦ ground (arith, e, count-same_entry-le p a ys h, find_first-only p a ys h)
]

find_first-hit :
    (p : Entry → Bool) (a : Entry) (ys : List Entry)
    → find_first p ys ≡ some a
    → p a ≡ true × 0 < count_if (same_entry a) ys
find_first-hit p a [] h = ground arith
find_first-hit p a (y ∷ ys) h = elim (Bool-cases (p y)) [
  | inl e ↦
      let q : y ≡ a = ground (arith, h, e) in
      (
        subst (λ z. p z ≡ true) q e,
        subst (λ z. 0 < count_if (same_entry a) (z ∷ ys)) (sym q)
            (ground (arith, same_entry_self a)),
      )
  | inr e ↦ let (hit, k) = find_first-hit p a ys (ground (arith, h, e)) in (hit, ground (arith, k))
]

pub count-find_none :
    (p : Entry → Bool) (ys : List Entry) → find_first p ys ≡ none → count_if p ys ≡ 0
count-find_none p [] h = refl
count-find_none p (y ∷ ys) h = ground (arith, count-find_none p ys)

-- A table, and the same entries with one of a new key, in any order.
module _ (xs ys : List Entry) (new : Entry)
    (same : (p : Entry → Bool) → count_if p ys ≡ count_if p (xs ++ new ∷ []))
    (distinct : (key : String) → keys_named key xs ≤ 1) (absent : keys_named new.key xs ≡ 0) where
  pub added-distinct : (key : String) → keys_named key ys ≤ 1
  added-distinct key = elim (Bool-cases (same_key key new.key)) [
    | inl e ↦
        let q : key ≡ new.key = ground (arith, eq_iff key new.key) in
        ground (
          arith,
          same (λ d. same_key key d.key),
          count_if-append (λ d. same_key key d.key) xs (new ∷ []),
          subst (λ k. keys_named k xs ≡ 0) (sym q) absent,
        )
    | inr e ↦ ground (
      arith,
      same (λ d. same_key key d.key),
      count_if-append (λ d. same_key key d.key) xs (new ∷ []),
      distinct key,
    )
  ]

  pub find_first-added : find_first (λ d. same_key new.key d.key) ys ≡ some new
  find_first-added =
      find_first-only (λ d. same_key new.key d.key) new ys (same_key_self new.key)
        (added-distinct new.key)
        (ground (
          arith,
          same (same_entry new),
          count_if-append (same_entry new) xs (new ∷ []),
          same_entry_self new,
        ))

  pub find_first-others :
      (key : String)
      → same_key key new.key ≡ false
      → find_first (λ d. same_key key d.key) ys ≡ find_first (λ d. same_key key d.key) xs
  find_first-others key other = elim (Option-cases (find_first (λ d. same_key key d.key) xs)) [
    | inl e ↦
        count-zero-find (λ d. same_key key d.key) ys
          (ground (
            arith,
            same (λ d. same_key key d.key),
            count_if-append (λ d. same_key key d.key) xs (new ∷ []),
            count-find_none (λ d. same_key key d.key) xs e,
            other,
          ))
        ∙ sym e
    | inr (a, e) ↦
        let (hit, k) = find_first-hit (λ d. same_key key d.key) a xs e in
        find_first-only (λ d. same_key key d.key) a ys hit (added-distinct key)
          (ground (arith, same (same_entry a), count_if-append (same_entry a) xs (new ∷ []), k))
        ∙ sym e
  ]

module _ (setup : StorageSetup) (positive : 0 < setup.entry_size) (storage : Storage)
    (same : storage.entry_size ≡ setup.entry_size) where
  -- What lies where there is room lies apart from every key.
  pub HasRoom-Apart :
      (lo n size : ℕ) (entries : List Entry)
      → Laid setup lo entries
      → HasRoom setup lo (req_entries setup size) entries n
      → All (λ e. Apart storage n size e.number e.size) entries
  HasRoom-Apart lo n size [] l r = tt
  HasRoom-Apart lo n size (e ∷ later) (i, l) (inl (h, k)) = (
    inl (rw same (ends_before setup positive n size e.number k)),
    Laid-Apart setup positive storage same n size (e.number + req_entries setup e.size) later
        (omega (arith, k)) l,
  )
  HasRoom-Apart lo n size (e ∷ later) (i, l) (inr r) = (
    inr (
        rw same (
          ends_before setup positive e.number e.size n (
            HasRoom-from setup (e.number + req_entries setup e.size) (req_entries setup size) n
              later l r))),
    HasRoom-Apart (e.number + req_entries setup e.size) n size later l r,
  )

-- A write apart from every key leaves every answer.
pub answer-Writes :
    (storage : Storage) (n : ℕ) (value : List ℕ) (after : Storage) (p : Entry → Bool)
    (entries : List Entry)
    → Writes storage n value after
    → All (λ e. Apart storage n (length value) e.number e.size) entries
    → answer (find_first p entries) after ≡ answer (find_first p entries) storage
answer-Writes storage n value after p [] w h = refl
answer-Writes storage n value after p (e ∷ later) w (a, h) = elim (Bool-cases (p e)) [
  | inl hit ↦ rw hit (ap string_answer (w.2 e.number e.size a))
  | inr miss ↦ rw miss (answer-Writes storage n value after p later w h)
]
