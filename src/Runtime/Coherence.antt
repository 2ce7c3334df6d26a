-- ===== src/Runtime/Coherence.antt =====
-- The invariant of a runtime object: its database is well formed, its cached session is the stored
-- one, and a transition that it holds prepared is that of the first input that waits.
use managed_agents.Common.{
  ℕ, String, Bool, true, false, Option, none, some, List, [], ◌∷◌, ◌++◌, ◌≡◌, refl, inl, inr,
  Bool-cases, sym, subst, ◌∙◌, head?, Result, ok, err,
}
use managed_agents.Common.Exec.{Exec, lift, continue}
use managed_agents.Contracts.Session.{SessionInfo}
use managed_agents.Runtime.Event.{Event}
use managed_agents.Runtime.Storage.{InboxRow, Envelope, next_input, new_row}
use managed_agents.Runtime.Inbox.Shape.{Held}
use managed_agents.Runtime.Inbox.Queue.{waiting, waiting-append, next_input-head?}
use managed_agents.Runtime.Invariant.{IsStore}
use managed_agents.Runtime.Preservation.{insert_next-IsStore}
use managed_agents.Runtime.Insertion.{insert_next-Inserted}
use managed_agents.Runtime.Core.State.{
  PreparedTransition, SessionRuntime, remember, load_stored, load_cached, load_session,
  require_session, exclusive, release, check_harness, same_harness, present,
}
use managed_agents.Runtime.Core.Insert.{insert_next}

-- a prepared transition is that of the first input
abbrev pub Ready : {C : Type 0} → Option (PreparedTransition C) → List InboxRow → Type 0
Ready none rows = Unit
Ready (some p) rows = next_input rows ≡ some p.input

-- the cache is empty or holds the stored session
abbrev pub Cached : Option SessionInfo → Option SessionInfo → Type 0
Cached none stored = Unit
Cached (some info) stored = stored ≡ some info

pub record IsRuntime {T C : Type 0} (r : SessionRuntime T C) : Type 0 where
  pub store : IsStore r.store
  pub ready : Ready r.prepared r.store.inbox
  pub cached : Cached r.session r.store.session

-- A method that keeps a property, whether it returns or throws.
pub record Maintains {S A : Type 0} (P : S → Type 0) (m : Exec S A) : Type 0 where
  pub at : (s : S) → P s → P (m s).1

module _ {T C A B : Type 0} where
  pub Maintains-continue :
      (P : SessionRuntime T C → Type 0) (result : Result A) (f : A → Exec (SessionRuntime T C) B)
      → ((a : A) → Maintains P (f a))
      → Maintains P (continue result f)
  Maintains-continue P (ok a) f k = k a
  Maintains-continue P (err e) f k = record { at = λ r h. h }

module _ {T C : Type 0} (r : SessionRuntime T C) (i : IsRuntime r) where
  pub busy-IsRuntime : (busy : Bool) → IsRuntime (record r { busy = busy })
  busy-IsRuntime busy = record { store = i.store; ready = i.ready; cached = i.cached }

  remember-IsRuntime :
      (info : SessionInfo) → r.store.session ≡ some info → IsRuntime (remember info r).1
  unfolding remember check_harness
  remember-IsRuntime info e = elim (Bool-cases (same_harness info.identity.harness r.identity)) [
    | inl same ↦ simp same (record { store = i.store; ready = i.ready; cached = e })
    | inr other ↦ simp other i
  ]

  load_stored-IsRuntime :
      (stored : Option SessionInfo) → r.store.session ≡ stored → IsRuntime (load_stored stored r).1
  unfolding load_stored
  load_stored-IsRuntime none e = i
  load_stored-IsRuntime (some info) e = remember-IsRuntime info e

  load_cached-IsRuntime : (cache : Option SessionInfo) → IsRuntime (load_cached cache r).1
  unfolding load_cached
  load_cached-IsRuntime none = load_stored-IsRuntime r.store.session refl
  load_cached-IsRuntime (some info) = i

module _ {T C A : Type 0} where
  pub exclusive-Maintains :
      (m : Exec (SessionRuntime T C) A) → Maintains IsRuntime m → Maintains IsRuntime (exclusive m)
  unfolding exclusive release
  exclusive-Maintains m k = record {
    at = λ r i. elim (Bool-cases r.busy) [
      | inl busy ↦ simp busy i
      | inr free ↦ simp free (
          busy-IsRuntime (m (record r { busy = true })).1
            (k.at (record r { busy = true }) (busy-IsRuntime r i true)) false)
    ];
  }

module _ {T C : Type 0} where
  pub load_session-Maintains : Maintains {S = SessionRuntime T C} IsRuntime load_session
  unfolding load_session
  load_session-Maintains = record { at = λ r i. load_cached-IsRuntime r i r.session }

  pub require_session-Maintains : Maintains {S = SessionRuntime T C} IsRuntime require_session
  unfolding require_session
  require_session-Maintains = record {
    at = λ r i.
        (Maintains-continue IsRuntime (load_session r).0 (λ found. lift (present found))
            (λ found. record { at = λ s k. k })).at
          (load_session r).1 (load_session-Maintains.at r i);
  }

head?-append :
    (xs : List Envelope) (x : Envelope) (ys : List Envelope)
    → head? xs ≡ some x
    → head? (xs ++ ys) ≡ some x
head?-append [] x ys e = cc
head?-append (y ∷ xs) x ys e = e

next_input-append :
    (rows : List InboxRow) (input first : Envelope) (hash : String)
    → Held rows
    → Held (rows ++ new_row input hash ∷ [])
    → next_input rows ≡ some first
    → next_input (rows ++ new_row input hash ∷ []) ≡ some first
next_input-append rows input first hash h h' e =
    rw (next_input-head? _ h', waiting-append rows input hash)
      (head?-append (waiting rows) first _ (sym (next_input-head? rows h) ∙ e))

pub Ready-append :
    {C : Type 0} (p : Option (PreparedTransition C)) (rows : List InboxRow) (input : Envelope)
    (hash : String)
    → Held rows
    → Held (rows ++ new_row input hash ∷ [])
    → Ready p rows
    → Ready p (rows ++ new_row input hash ∷ [])
Ready-append none rows input hash h h' e = tt
Ready-append (some p) rows input hash h h' e = next_input-append rows input p.input hash h h' e

module _ {T C : Type 0} (r : SessionRuntime T C) (i : IsRuntime r) where
  -- an inserted input leaves the first one first
  pub insert_next-IsRuntime :
      (now : ℕ) (event_id : String) (event : Event) (hash : String) (input : Envelope)
      (rows : List InboxRow)
      → insert_next now event_id event hash r.store.inbox ≡ ok (input, rows)
      → IsRuntime (record r { store = record r.store { inbox = rows } })
  insert_next-IsRuntime now event_id event hash input rows e =
      let new =
        insert_next-Inserted now event_id event hash r.store.inbox i.store.inbox input rows e in
      record {
        store = insert_next-IsStore r.store i.store now event_id event hash input rows e;
        ready = rw (new.grown) (
            Ready-append r.prepared r.store.inbox input hash i.store.inbox.held
              (subst Held new.grown new.inbox.held) i.ready);
        cached = i.cached;
      }
