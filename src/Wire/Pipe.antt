-- ===== src/Wire/Pipe.antt =====
-- A connection for runs on small inputs, which a signal interrupts once at most and which takes three
-- bytes at a time.
use tp_so_1c.Prelude.{
  ℕ, ◌≤◌, ◌<◌, ◌≡◌, refl, ap, subst, ◌⊎◌, inl, inr, arith, List, [], ◌∷◌, ◌++◌, length, take, drop,
  some, Bool, false, ◌&&◌, if◌then◌else◌, Bool-cases, leb,
}
use tp_so_1c.Wire.Chunk.{RecvAnswer, received, interrupted, SocketLib}
use tp_so_1c.Wire.RoundTrip.{Connected}

pub record Pipe : Type 0 where
  pub signal : Bool
  pub coming : List ℕ
  pub gone : List ℕ

-- `signals` is whether signals can come at all.
abbrev pub pipe_recv : Bool → ℕ → Pipe → RecvAnswer × Pipe
pipe_recv signals n s =
    if signals && s.signal
    then (interrupted, record s { signal = false })
    else (received (take n s.coming), record s { coming = drop n s.coming })

abbrev pub first_of : ℕ → ℕ
first_of n = if leb n 3 then n else 3

pub first_of_le : (n : ℕ) → first_of n ≤ n
first_of_le n = ground arith

pub first_of_positive : (n : ℕ) → 0 < n → 0 < first_of n
first_of_positive n h = ground arith

abbrev pub pipe : Bool → SocketLib
pipe signals = record {
  Socket = Pipe;
  recv = pipe_recv signals;
  send = λ bs s.
      (some (first_of (length bs)), record s { gone = s.gone ++ take (first_of (length bs)) bs });
}

pub take-append : {A : Type 0} (xs ys : List A) → take (length xs) (xs ++ ys) ≡ xs
take-append [] ys = refl
take-append (x ∷ xs) ys = ap (λ l. x ∷ l) (take-append xs ys)

pub drop-append : {A : Type 0} (xs ys : List A) → drop (length xs) (xs ++ ys) ≡ ys
drop-append [] ys = refl
drop-append (x ∷ xs) ys = drop-append xs ys

pub pipe_recv-brings :
    (signals : Bool) (n : ℕ) (bs rest : List ℕ) (s : Pipe)
    → s.coming ≡ bs ++ rest
    → length bs ≡ n
    → (t : Pipe) × ((pipe_recv signals n s ≡ (received bs, t) × t.coming ≡ rest)
        ⊎ (pipe_recv signals n s ≡ (interrupted, t)
            × t.coming ≡ bs ++ rest
            × (if signals && t.signal then 1 else 0) < (if signals && s.signal then 1 else 0)))
pipe_recv-brings signals n bs rest s h l = elim (Bool-cases (signals && s.signal)) [
  | inl e ↦ (record s { signal = false }, inr (rw e refl, h, rw e (ground arith)))
  | inr e ↦ (
    record s { coming = drop n s.coming },
    inl (
      rw e (
          ap (λ k. (received k, record s { coming = drop n s.coming }))
            (rw h (subst (λ k. take k (bs ++ rest) ≡ bs) l (take-append bs rest)))),
      rw h (subst (λ k. drop k (bs ++ rest) ≡ rest) l (drop-append bs rest)),
    ),
  )
]

abbrev pub pipe-Connected : (signals : Bool) → Connected (pipe signals)
pipe-Connected signals = record {
  incoming = λ s. s.coming;
  outgoing = λ s. s.gone;
  interruptions = λ s. if signals && s.signal then 1 else 0;
  receives = pipe_recv-brings signals;
  sends = λ bs s. (
    first_of (length bs),
    record s { gone = s.gone ++ take (first_of (length bs)) bs },
    refl,
    first_of_le (length bs),
    first_of_positive (length bs),
    refl,
  );
}
