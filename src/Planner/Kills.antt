-- ===== src/Planner/Kills.antt =====
-- planificador/planificador.c: `burn_esi_corpses`, which carries out the `kill` commands of the console.
use tp_so_1c.Prelude.{
  ◌<◌, ◌≤◌, ◌≡◌, ◌⊎◌, hits-remove_first, same_int_iff, refl, ℤ, same_int, hits, arith, List, [],
  ◌∷◌, false, fold, ap, any, Bool-cases, inl, inr,
}
use tp_so_1c.Outcome.{Outcome, ok, crash, hang, ◌>>=◌, Settles}
use tp_so_1c.Commons.{ListLib, Documented, Documented-eq, Sort, sequences}
use tp_so_1c.Planner.State.{Planner, EsiInformation, Setup}
use tp_so_1c.Planner.Death.{sock_my_port, sock_all, spare_finished_esi, burn_esi_corpses}
use tp_so_1c.Planner.Locks.{sock_my_port-Leaves}

fold-crash :
    {A B : Type 0} (f : B → A → Outcome A) (xs : List B) → fold (λ m x. m >>= f x) crash xs ≡ crash
fold-crash f [] = refl
fold-crash f (x ∷ xs) = fold-crash f xs

Settles-cases :
    {A : Type 0} {P : A → Type 0} (m : Outcome A)
    → Settles P m
    → (m ≡ crash) ⊎ ((a : A) × (m ≡ ok a × P a))
Settles-cases (ok a) h = inr (a, (refl, h))
Settles-cases crash h = inl refl
Settles-cases hang h = elim h [ ]

module _ (sort : Sort) {F : Type 0} (setup : Setup F) where
  spare_finished_esi-going :
      (executing : ℤ) (s : Planner F)
      → s.finished_esi_flag ≡ false
      → spare_finished_esi (sequences sort) executing s ≡ ok s
  unfolding spare_finished_esi
  spare_finished_esi-going executing s going =
      elim (Bool-cases (any (λ e. same_int e executing) s.new_killed_esis)) [
        | inl e ↦ rw (e, going)
        | inr e ↦ rw e
      ]

  -- More `kill` commands for an ESI than there are entries of it: one of them finds none.
  sock_all-crashes :
      (fd : ℤ) (killed : List ℤ) (s : Planner F)
      → hits (λ e. e.esi_id) fd s.esi_bursts < hits (λ x. x) fd killed
      → sock_all (sequences sort) setup killed s ≡ crash
  unfolding sock_all
  sock_all-crashes fd [] s h = elim h [ ]
  sock_all-crashes fd (x ∷ xs) s h =
      elim (Settles-cases (sock_my_port (sequences sort) setup x s)
        (sock_my_port-Leaves sort setup x s)) [
          | inl e ↦ rw e (fold-crash (λ y. sock_my_port (sequences sort) setup y) xs)
          | inr (t, (e, (left, known))) ↦ rw e (
              sock_all-crashes fd xs t (
                ground (
                  arith,
                  h,
                  known,
                  ap (hits (λ (b : EsiInformation F). b.esi_id) fd) left.1,
                  hits-remove_first (λ (b : EsiInformation F). b.esi_id) x fd s.esi_bursts,
                  same_int_iff x fd,
                )))
        ]

  burn_esi_corpses-twice_sequences :
      (fd executing : ℤ) (s : Planner F)
      → hits (λ e. e.esi_id) fd s.esi_bursts ≤ 1
      → 2 ≤ hits (λ x. x) fd s.new_killed_esis
      → s.finished_esi_flag ≡ false
      → burn_esi_corpses (sequences sort) setup executing s ≡ crash
  unfolding burn_esi_corpses
  burn_esi_corpses-twice_sequences fd executing s once twice going =
      rw (spare_finished_esi-going executing s going)
        (rw (sock_all-crashes fd s.new_killed_esis s (omega (arith, once, twice))))

-- Two `kill` commands for one ESI, wherever they stand among those that were read before the main
-- thread acts on them: where the ESI is known once at most, and no ESI has just finished,
-- `burn_esi_corpses` follows a null pointer.
pub burn_esi_corpses_twice :
    {lib : ListLib} {F : Type 0} (setup : Setup F) (fd executing : ℤ) (s : Planner F)
    → Documented lib
    → hits (λ e. e.esi_id) fd s.esi_bursts ≤ 1
    → 2 ≤ hits (λ x. x) fd s.new_killed_esis
    → s.finished_esi_flag ≡ false
    → burn_esi_corpses lib setup executing s ≡ crash
burn_esi_corpses_twice {lib} setup fd executing s manual once twice going =
    rw (Documented-eq manual) (
      burn_esi_corpses-twice_sequences (λ A. lib.list_sort {A = A}) setup fd executing s once twice
        going)
