-- ===== src/Runtime/Atomicity/Rules.antt =====
-- Methods that write nothing, and those that write nothing when they throw, with their composition.
use managed_agents.Common.{true, ◌≡◌, refl, inl, inr, subst, ◌∙◌, Bool-cases, Result, ok, err}
use managed_agents.Common.Exec.{Exec, continue}
use managed_agents.Runtime.Core.State.{SessionRuntime, exclusive, release}

-- `P` must hold when a call threw
abbrev pub Unless : {A : Type 0} → Result A → Type 0 → Type 0
Unless (ok a) P = Unit
Unless (err e) P = P

pub Unless-always : {A : Type 0} (result : Result A) {P : Type 0} → P → Unless result P
Unless-always (ok a) p = tt
Unless-always (err e) p = p

module _ {T C A : Type 0} where
  pub record Reads (m : Exec (SessionRuntime T C) A) : Type 0 where
    pub at : (r : SessionRuntime T C) → (m r).1.store ≡ r.store

  pub record Atomic (m : Exec (SessionRuntime T C) A) : Type 0 where
    pub at : (r : SessionRuntime T C) → Unless (m r).0 ((m r).1.store ≡ r.store)

  pub Reads-Atomic : (m : Exec (SessionRuntime T C) A) → Reads m → Atomic m
  Reads-Atomic m k = record { at = λ r. Unless-always (m r).0 (k.at r) }

  pub exclusive-Reads : (m : Exec (SessionRuntime T C) A) → Reads m → Reads (exclusive m)
  unfolding exclusive release
  exclusive-Reads m k = record {
    at = λ r. elim (Bool-cases r.busy) [
      | inl busy ↦ simp busy refl
      | inr free ↦ simp free (k.at (record r { busy = true }))
    ];
  }

  pub exclusive-Atomic : (m : Exec (SessionRuntime T C) A) → Atomic m → Atomic (exclusive m)
  unfolding exclusive release
  exclusive-Atomic m k = record {
    at = λ r. elim (Bool-cases r.busy) [
      | inl busy ↦ simp busy refl
      | inr free ↦ simp free (k.at (record r { busy = true }))
    ];
  }

module _ {T C A B : Type 0} where
  pub Reads-continue :
      (result : Result A) (f : A → Exec (SessionRuntime T C) B)
      → ((a : A) → Reads (f a))
      → Reads (continue result f)
  Reads-continue (ok a) f k = k a
  Reads-continue (err e) f k = record { at = λ r. refl }

  pub Atomic-continue :
      (result : Result A) (f : A → Exec (SessionRuntime T C) B)
      → ((a : A) → Atomic (f a))
      → Atomic (continue result f)
  Atomic-continue (ok a) f k = k a
  Atomic-continue (err e) f k = record { at = λ r. refl }

  -- what follows a step that only reads
  pub Reads-then :
      (m : Exec (SessionRuntime T C) A) (f : A → Exec (SessionRuntime T C) B)
      → Reads m
      → ((a : A) → Reads (f a))
      → Reads (λ r. continue (m r).0 f (m r).1)
  Reads-then m f k l = record { at = λ r. (Reads-continue (m r).0 f l).at (m r).1 ∙ k.at r }

  pub Atomic-then :
      (m : Exec (SessionRuntime T C) A) (f : A → Exec (SessionRuntime T C) B)
      → Reads m
      → ((a : A) → Atomic (f a))
      → Atomic (λ r. continue (m r).0 f (m r).1)
  Atomic-then m f k l = record {
    at = λ r.
        subst
          (λ store.
            Unless (continue (m r).0 f (m r).1).0 ((continue (m r).0 f (m r).1).1.store ≡ store))
          (k.at r) ((Atomic-continue (m r).0 f l).at (m r).1);
  }
