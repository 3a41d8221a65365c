-- ===== src/Restore/WriteGate/Drain.antt =====
-- What holds while an operation has the gate frozen, in every interleaving
-- (backend/internal/restore/writegate.go).
use komachi.Base.{ℕ, suc, ◌≡◌, ◌≢◌, refl, true, false, arith, ok, err}
use komachi.Restore.WriteGate.{
  WriteGate, new_write_gate, engage, disengage, try_enter, leave, freeze_start, freeze_abort, thaw,
  drained, another_operation,
}

-- Where the operation that holds the mutex stands.
pub data Holder : Type 0 where
  idle : Holder
  waiting : Holder
  frozen : Holder

pub record System : Type 0 where
  pub gate : WriteGate
  pub holder : Holder
  -- the requests between `TryEnter` and their `leave`
  pub writing : ℕ

-- The steps of the requests and of the operations that call `Freeze`.
pub data Step : System → System → Type 0 where
  enter :
      (s : System)
      → (try_enter s.gate).0 ≡ true
      → Step s (record s { gate = (try_enter s.gate).1; writing = suc s.writing })
  refuse :
      (s : System)
      → (try_enter s.gate).0 ≡ false
      → Step s (record s { gate = (try_enter s.gate).1 })
  finish :
      (s : System) (n : ℕ)
      → s.writing ≡ suc n
      → Step s (record s { gate = leave s.gate; writing = n })
  start :
      (s : System)
      → (freeze_start s.gate).0 ≡ ok tt
      → Step s (record s { gate = (freeze_start s.gate).1; holder = waiting })
  busy :
      (s : System)
      → (freeze_start s.gate).0 ≢ ok tt
      → Step s (record s { gate = (freeze_start s.gate).1 })
  freeze :
      (s : System)
      → s.holder ≡ waiting
      → drained s.gate ≡ true
      → Step s (record s { holder = frozen })
  give_up :
      (s : System)
      → s.holder ≡ waiting
      → Step s (record s { gate = (freeze_abort s.gate).1; holder = idle })
  release :
      (s : System) → s.holder ≡ frozen → Step s (record s { gate = thaw s.gate; holder = idle })

pub data Steps : System → System → Type 0 where
  here : (s : System) → Steps s s
  then_step : (s t u : System) → Steps s t → Step t u → Steps s u

abbrev pub initial : System
initial = record { gate = new_write_gate; holder = idle; writing = 0 }

abbrev Held : Holder → WriteGate → ℕ → Type 0
Held idle g n = (g.operation ≡ false) × (g.engaged ≡ false)
Held waiting g n = (g.operation ≡ true) × (g.engaged ≡ true)
Held frozen g n = (g.operation ≡ true) × (g.engaged ≡ true) × (n ≡ 0)

-- The counter counts the requests, and the flags follow the holder.
abbrev pub IsValid : System → Type 0
IsValid s = (s.gate.inflight ≡ s.writing) × Held s.holder s.gate s.writing

Held-enter :
    (k : Holder) (g : WriteGate) (n : ℕ)
    → (try_enter g).0 ≡ true
    → Held k g n
    → ((try_enter g).1.inflight ≡ suc g.inflight) × Held k (try_enter g).1 (suc n)
unfolding try_enter
Held-enter idle g n e h = ground arith
Held-enter waiting g n e h = ground arith
Held-enter frozen g n e h = ground arith

try_enter_refused : (g : WriteGate) → (try_enter g).0 ≡ false → (try_enter g).1 ≡ g
unfolding try_enter
try_enter_refused g e = ground arith

Held-finish : (k : Holder) (g : WriteGate) (n : ℕ) → Held k g (suc n) → Held k (leave g) n
unfolding leave
Held-finish idle g n h = h
Held-finish waiting g n h = h
Held-finish frozen g n h = ground arith

Held-start :
    (k : Holder) (g : WriteGate) (n : ℕ)
    → (freeze_start g).0 ≡ ok tt
    → Held k g n
    → ((freeze_start g).1.inflight ≡ g.inflight) × Held waiting (freeze_start g).1 n
unfolding freeze_start engage
Held-start idle g n e h = ground arith
Held-start waiting g n e h = ground arith
Held-start frozen g n e h = ground arith

freeze_start_refused : (g : WriteGate) → (freeze_start g).0 ≢ ok tt → (freeze_start g).1 ≡ g
unfolding freeze_start
freeze_start_refused g e = ground arith

Step-IsValid : (s t : System) → Step s t → IsValid s → IsValid t
unfolding freeze_abort thaw disengage leave
Step-IsValid s t (enter _ e) v =
    let (c, h) = Held-enter s.holder s.gate s.writing e v.1 in (ground arith, h)
Step-IsValid s t (refuse _ e) v = rw (try_enter_refused s.gate e) v
Step-IsValid s t (finish _ n e) v = (ground arith, Held-finish s.holder s.gate n (rw e at v.1))
Step-IsValid s t (start _ e) v =
    let (c, h) = Held-start s.holder s.gate s.writing e v.1 in (ground arith, h)
Step-IsValid s t (busy _ e) v = rw (freeze_start_refused s.gate e) v
Step-IsValid s t (freeze _ w d) v = let h = rw w at v.1 in (v.0, (h.0, h.1, ground arith))
Step-IsValid s t (give_up _ w) v = ground arith
Step-IsValid s t (release _ w) v = ground arith

initial-IsValid : IsValid initial
initial-IsValid = (refl, (refl, refl))

Steps-IsValid : (s t : System) → Steps s t → IsValid s → IsValid t
Steps-IsValid s t (here _) v = v
Steps-IsValid s u (then_step _ t _ run last) v = Step-IsValid t u last (Steps-IsValid s t run v)

-- In every interleaving that starts with a new gate: while an operation has the gate frozen, no
-- request is writing, no request enters and no other operation starts.
pub frozen-exclusive :
    (s : System)
    → Steps initial s
    → s.holder ≡ frozen
    → (s.writing ≡ 0)
      × ((try_enter s.gate).0 ≡ false)
      × ((freeze_start s.gate).0 ≡ err another_operation)
unfolding try_enter freeze_start
frozen-exclusive s run e =
    let v = Steps-IsValid initial s run initial-IsValid in
    let h = rw e at v.1 in (h.2, ground arith, ground arith)

-- In every interleaving that starts with a new gate: once no operation holds the gate, requests
-- enter again and an operation can start.
pub idle-open :
    (s : System)
    → Steps initial s
    → s.holder ≡ idle
    → ((try_enter s.gate).0 ≡ true) × ((freeze_start s.gate).0 ≡ ok tt)
unfolding try_enter freeze_start
idle-open s run e =
    let v = Steps-IsValid initial s run initial-IsValid in
    let h = rw e at v.1 in (ground arith, ground arith)
