-- ===== src/Worker/Init.antt =====
-- `init` and `_run` of python/fastapi_turbo/_async_worker.py, called by any number of threads at
-- once: the unlocked check, the lock, the check under the lock, the start of the worker thread and
-- the wait until that thread has published its loop. Each step is what one thread does between two
-- points at which another can run.
use fastapi_turbo.Prelude.{
  ℕ, suc, ◌≤◌, ◌≡◌, refl, Bool, true, false, ◌⊎◌, inl, arith, ◌==◌, if◌then◌else◌,
}

-- Where a thread stands in `init`: before the first check, at the lock, inside, or returned.
pub data Pc : Type 0 where
  calling at_lock inside left : Pc

-- The holder of the lock checks again, or waits for the worker thread.
pub data Phase : Type 0 where
  rechecking waiting : Phase

pub data Lock : Type 0 where
  free : Lock
  held : ℕ → Phase → Lock

-- `loop`: whether `_loop` is set; `starting`: worker threads that run `_run` and have published
-- nothing yet; `loops_started`: the program's own counter.
pub record World : Type 0 where
  pub lock : Lock
  pub loop : Bool
  pub starting : ℕ
  pub loops_started : ℕ
  pub pc : ℕ → Pc

abbrev pub at : World → ℕ → Pc → ℕ → Pc
at w t p u = if u == t then p else w.pc u

-- `timely` says that the wait for the worker thread does not run into its ten seconds.
pub data Step (timely : Bool) (w : World) : World → Type 0 where
  check_hit :
      (t : ℕ) → w.pc t ≡ calling → w.loop ≡ true → Step timely w (record w { pc = at w t left })
  check_miss :
      (t : ℕ) → w.pc t ≡ calling → w.loop ≡ false → Step timely w (record w { pc = at w t at_lock })
  acquire :
      (t : ℕ)
      → w.pc t ≡ at_lock
      → w.lock ≡ free
      → Step timely w (record w { lock = held t rechecking; pc = at w t inside })
  recheck_hit :
      (t : ℕ)
      → w.lock ≡ held t rechecking
      → w.loop ≡ true
      → Step timely w (record w { lock = free; pc = at w t left })
  recheck_miss :
      (t : ℕ)
      → w.lock ≡ held t rechecking
      → w.loop ≡ false
      → Step timely w (record w { lock = held t waiting; starting = suc w.starting })
  publish :
      (n : ℕ)
      → w.starting ≡ suc n
      → Step timely w (record w { starting = n; loop = true; loops_started = suc w.loops_started })
  ready :
      (t : ℕ)
      → w.lock ≡ held t waiting
      → w.loop ≡ true
      → Step timely w (record w { lock = free; pc = at w t left })
  give_up :
      (t : ℕ)
      → timely ≡ false
      → w.lock ≡ held t waiting
      → Step timely w (record w { lock = free; pc = at w t left })

abbrev pub start : World
start = record { lock = free; loop = false; starting = 0; loops_started = 0; pc = λ t. calling }

pub data Reach (timely : Bool) : World → Type 0 where
  here : Reach timely start
  next : {v w : World} → Reach timely v → Step timely v w → Reach timely w

-- One loop, or none; one may be on its way only while its starter holds the lock.
abbrev Settled : Bool → ℕ → Type 0
Settled loop loops = ((loop ≡ false) × (loops ≡ 0)) ⊎ ((loop ≡ true) × (loops ≡ 1))

abbrev LockInv : Lock → Bool → ℕ → ℕ → Type 0
LockInv (held t waiting) loop loops starting =
    ((loop ≡ false) × (loops ≡ 0) × (starting ≡ 1)) ⊎ ((loop ≡ true) × (loops ≡ 1) × (starting ≡ 0))
LockInv l loop loops starting = (starting ≡ 0) × Settled loop loops

record Inv (w : World) : Type 0 where
  guarded : LockInv w.lock w.loop w.loops_started w.starting
  returned : (t : ℕ) → w.pc t ≡ left → w.loop ≡ true

LockInv-le :
    (l : Lock) (loop : Bool) (loops starting : ℕ) → LockInv l loop loops starting → loops ≤ 1
LockInv-le free loop loops starting i = ground arith
LockInv-le (held t rechecking) loop loops starting i = ground arith
LockInv-le (held t waiting) loop loops starting i = ground arith

LockInv-one :
    (l : Lock) (loop : Bool) (loops starting : ℕ)
    → LockInv l loop loops starting
    → loop ≡ true
    → loops ≡ 1
LockInv-one free loop loops starting i e = ground arith
LockInv-one (held t rechecking) loop loops starting i e = ground arith
LockInv-one (held t waiting) loop loops starting i e = ground arith

LockInv-publish :
    (l : Lock) (loop : Bool) (loops n : ℕ)
    → LockInv l loop loops (suc n)
    → LockInv l true (suc loops) n
LockInv-publish free loop loops n i = ground arith
LockInv-publish (held t rechecking) loop loops n i = ground arith
LockInv-publish (held t waiting) loop loops n i = ground arith

started :
    (loop : Bool) (loops starting : ℕ)
    → loop ≡ false
    → (starting ≡ 0) × Settled loop loops
    → ((loop ≡ false) × (loops ≡ 0) × (suc starting ≡ 1))
      ⊎ ((loop ≡ true) × (loops ≡ 1) × (suc starting ≡ 0))
started loop loops starting l i = ground arith

served :
    (loop : Bool) (loops starting : ℕ)
    → loop ≡ true
    → ((loop ≡ false) × (loops ≡ 0) × (starting ≡ 1))
      ⊎ ((loop ≡ true) × (loops ≡ 1) × (starting ≡ 0))
    → (starting ≡ 0) × Settled loop loops
served loop loops starting l i = ground arith

Step-Inv : {v w : World} → Step true v w → Inv v → Inv w
Step-Inv {v} (check_hit t p l) i = record {
  guarded = i.guarded;
  returned = λ u e. ground (arith, i.returned u);
}
Step-Inv {v} (check_miss t p l) i = record {
  guarded = i.guarded;
  returned = λ u e. ground (arith, i.returned u);
}
Step-Inv {v} (acquire t p l) i = record {
  guarded = rw l at i.guarded;
  returned = λ u e. ground (arith, i.returned u);
}
Step-Inv {v} (recheck_hit t p l) i = record { guarded = rw p at i.guarded; returned = λ u e. l }
Step-Inv {v} (recheck_miss t p l) i = record {
  guarded = started v.loop v.loops_started v.starting l (rw p at i.guarded);
  returned = i.returned;
}
Step-Inv {v} (publish n s) i = record {
  guarded = LockInv-publish v.lock v.loop v.loops_started n (rw s at i.guarded);
  returned = λ u e. refl;
}
Step-Inv {v} (ready t p l) i = record {
  guarded = served v.loop v.loops_started v.starting l (rw p at i.guarded);
  returned = λ u e. l;
}
Step-Inv {v} (give_up t n p) i = cc

Reach-Inv : {w : World} → Reach true w → Inv w
Reach-Inv here = record { guarded = (refl, inl (refl, refl)); returned = λ t e. cc }
Reach-Inv (next r s) = Step-Inv s (Reach-Inv r)

-- However many threads call `init` at once, and however they interleave, at most one loop is ever
-- started, as long as the wait for it does not time out.
pub Reach-one_loop : (w : World) → Reach true w → w.loops_started ≤ 1
Reach-one_loop w r = LockInv-le w.lock w.loop w.loops_started w.starting (Reach-Inv r).guarded

-- On the same condition, a thread that has returned from `init` finds the loop set, and exactly one
-- loop has been started.
pub Reach-left :
    (w : World) (t : ℕ) → Reach true w → w.pc t ≡ left → (w.loop ≡ true) × (w.loops_started ≡ 1)
Reach-left w t r e =
    let i = Reach-Inv r in
    let up = i.returned t e in
    (up, LockInv-one w.lock w.loop w.loops_started w.starting i.guarded up)
