-- ===== src/Worker/Submit.antt =====
-- `submit_fast`, `_kickoff`, `_runner` and `_cancel_in_box` of
-- python/fastapi_turbo/_async_worker.py: one submit, as the interleaving of the caller's thread with
-- the loop's. The coroutine's own outcome, and when it comes, are the environment's. `box[2]` is
-- `task`, `box[3]` is `cancel_requested`, `box[0]` and `box[1]` are the two forms of an outcome.
use fastapi_turbo.Prelude.{
  ◌≡◌, ◌≢◌, ◌⊎◌, Bool, true, false, ◌||◌, List, [], ◌∷◌, ◌++◌, Option, none, some, arith,
  if◌then◌else◌,
}

pub data Outcome (V E : Type 0) : Type 0 where
  value : V → Outcome V E
  exc : E → Outcome V E

pub data Callback : Type 0 where
  kickoff cancel_in_box : Callback

-- Where the caller stands: at `ev.wait`, behind it with the time elapsed, behind the request to
-- cancel, at the `TimeoutError`, or at the end with an outcome.
pub data Caller (V E : Type 0) : Type 0 where
  waiting expired flagged timed_out : Caller V E
  got : Outcome V E → Caller V E

-- Between the two halves of `_kickoff` the caller may act.
pub data LoopPc : Type 0 where
  idle checking : LoopPc

-- A task that runs has been asked to cancel, or not.
pub data Task : Type 0 where
  no_task done : Task
  running : Bool → Task

module _ (V E : Type 0) where
  pub record Submit : Type 0 where
    pub caller : Caller V E
    pub queue : List Callback
    pub loop : LoopPc
    pub cancel_requested : Bool
    pub task : Task
    pub box : Option (Outcome V E)
    pub closed : Bool
    pub ev : Bool
    pub pooled : Bool

-- `task.cancel()`, which does nothing to a task that is done, and `if t is not None and not t.done()`.
abbrev pub ask : Task → Task
ask no_task = no_task
ask done = done
ask (running b) = running true

-- The event goes back to the pool only behind a value.
abbrev pub keeps_event : {V E : Type 0} → Outcome V E → Bool
keeps_event (value v) = true
keeps_event (exc e) = false

-- Nothing that runs has been asked to cancel.
abbrev Unasked : Task → Type 0
Unasked (running b) = b ≡ false
Unasked t = Unit

-- Nothing runs on without having been asked to cancel.
abbrev Reined : Task → Type 0
Reined (running b) = b ≡ true
Reined t = Unit

module _ {V E : Type 0} where
  abbrev pub submitted : Submit V E
  submitted = record {
    caller = waiting;
    queue = kickoff ∷ [];
    loop = idle;
    cancel_requested = false;
    task = no_task;
    box = none;
    closed = false;
    ev = false;
    pooled = false;
  }

  pub data Step (s : Submit V E) : Submit V E → Type 0 where
    wake :
        (o : Outcome V E)
        → s.caller ≡ waiting
        → s.ev ≡ true
        → s.box ≡ some o
        → Step s (record s { caller = got o; pooled = keeps_event o })
    time_out : s.caller ≡ waiting → s.ev ≡ false → Step s (record s { caller = expired })
    request_cancel :
        s.caller ≡ expired → Step s (record s { caller = flagged; cancel_requested = true })
    schedule_cancel :
        s.caller ≡ flagged
        → Step s (record s { caller = timed_out; queue = s.queue ++ cancel_in_box ∷ [] })
    kickoff_closes :
        (q : List Callback)
        → s.loop ≡ idle
        → s.queue ≡ kickoff ∷ q
        → s.cancel_requested ≡ true
        → Step s (record s { queue = q; closed = true; ev = true })
    kickoff_starts :
        (q : List Callback)
        → s.loop ≡ idle
        → s.queue ≡ kickoff ∷ q
        → s.cancel_requested ≡ false
        → Step s (record s { queue = q; task = running false; loop = checking })
    -- an eager task that ends in its first step
    kickoff_completes :
        (q : List Callback) (o : Outcome V E)
        → s.loop ≡ idle
        → s.queue ≡ kickoff ∷ q
        → s.cancel_requested ≡ false
        → Step s (record s { queue = q; task = done; box = some o; ev = true; loop = checking })
    recheck :
        s.loop ≡ checking
        → Step s
            (record s { task = if s.cancel_requested then ask s.task else s.task; loop = idle })
    cancels :
        (q : List Callback)
        → s.loop ≡ idle
        → s.queue ≡ cancel_in_box ∷ q
        → Step s (record s { queue = q; task = ask s.task })
    completes :
        (o : Outcome V E) (b : Bool)
        → s.loop ≡ idle
        → s.task ≡ running b
        → Step s (record s { task = done; box = some o; ev = true })

  pub data Reach : Submit V E → Type 0 where
    here : Reach submitted
    next : {s t : Submit V E} → Reach s → Step s t → Reach t

  -- The caller has not asked for a cancellation.
  abbrev is_waiting : Caller V E → Bool
  is_waiting waiting = true
  is_waiting expired = true
  is_waiting _ = false

  abbrev is_flagged : Caller V E → Bool
  is_flagged flagged = true
  is_flagged _ = false

  abbrev is_timed_out : Caller V E → Bool
  is_timed_out timed_out = true
  is_timed_out _ = false

  -- The coroutine has not been touched.
  abbrev Fresh : Submit V E → Type 0
  Fresh s =
      (s.loop ≡ idle) × (s.task ≡ no_task) × (s.box ≡ none) × (s.closed ≡ false) × (s.ev ≡ false)

  -- The coroutine was closed, or has a task; its outcome is in the box exactly when it is done.
  abbrev Started : Task → LoopPc → Option (Outcome V E) → Bool → Bool → Type 0
  Started no_task l b closed ev = (closed ≡ true) × (b ≡ none) × (ev ≡ true) × (l ≡ idle)
  Started done l (some o) closed ev = (closed ≡ false) × (ev ≡ true)
  Started done l none closed ev = ⊥
  Started (running a) l b closed ev = (closed ≡ false) × (b ≡ none) × (ev ≡ false)

  -- What the caller has, against the box.
  abbrev Matches : Caller V E → Submit V E → Type 0
  Matches waiting s = (s.cancel_requested ≡ false) × (s.pooled ≡ false) × (s.closed ≡ false)
  Matches expired s = (s.cancel_requested ≡ false) × (s.pooled ≡ false) × (s.closed ≡ false)
  Matches flagged s = (s.cancel_requested ≡ true) × (s.pooled ≡ false)
  Matches timed_out s = (s.cancel_requested ≡ true) × (s.pooled ≡ false)
  Matches (got o) s =
      (s.cancel_requested ≡ false) × (s.box ≡ some o) × (s.task ≡ done) × (s.pooled ≡ keeps_event o)

  abbrev Settles : Caller V E → Task → Type 0
  Settles waiting t = Unasked t
  Settles expired t = Unasked t
  Settles timed_out t = Reined t
  Settles c t = Unit

  -- What the loop still holds decides how far the submit has come.
  abbrev QueueInv : List Callback → Submit V E → Type 0
  QueueInv [] s = Started s.task s.loop s.box s.closed s.ev × Settles s.caller s.task
  QueueInv (kickoff ∷ []) s = Fresh s × (is_waiting s.caller || is_flagged s.caller ≡ true)
  QueueInv (kickoff ∷ cancel_in_box ∷ []) s = Fresh s × (is_timed_out s.caller ≡ true)
  QueueInv (cancel_in_box ∷ []) s =
      Started s.task s.loop s.box s.closed s.ev × (is_timed_out s.caller ≡ true)
  QueueInv _ s = ⊥

  record Inv (s : Submit V E) : Type 0 where
    shape : QueueInv s.queue s
    answer : Matches s.caller s

  Step-Inv : {s t : Submit V E} → Step s t → Inv s → Inv t
  Step-Inv (wake o c e b) i = ground arith
  Step-Inv (time_out c e) i = ground arith
  Step-Inv (request_cancel c) i = ground arith
  Step-Inv (schedule_cancel c) i = ground arith
  Step-Inv (kickoff_closes q l e c) i = ground arith
  Step-Inv (kickoff_starts q l e c) i = ground arith
  Step-Inv (kickoff_completes q o l e c) i = ground arith
  Step-Inv (recheck l) i = ground arith
  Step-Inv (cancels q l e) i = ground arith
  Step-Inv (completes o b l t) i = ground arith

  Reach-Inv : {s : Submit V E} → Reach s → Inv s
  Reach-Inv here = ground arith
  Reach-Inv (next r st) = Step-Inv st (Reach-Inv r)

  -- Once the caller has timed out and the loop holds no more callbacks of the submit, no race has let
  -- the coroutine survive: it was never started, is done, or has been asked to cancel.
  pub Reach-cancelled :
      (s : Submit V E) → Reach s → s.caller ≡ timed_out → s.queue ≡ [] → s.task ≢ running false
  Reach-cancelled s r c q = let i = Reach-Inv r in ground (arith, i.shape)

  -- Where the wait of the caller did not time out, what it returns or raises is the outcome of the
  -- coroutine, which has ended; and the event goes back to the pool exactly when it is a value. The
  -- loop then holds no callback of the submit and no task of it runs: nothing sets the pooled event
  -- later.
  pub Reach-answer :
      (s : Submit V E) (o : Outcome V E)
      → Reach s
      → s.caller ≡ got o
      → (s.box ≡ some o) × (s.pooled ≡ keeps_event o) × (s.task ≡ done) × (s.queue ≡ [])
  Reach-answer s o r c = let i = Reach-Inv r in ground (arith, i.shape, i.answer)

  -- A caller that waits is never stranded: when the loop holds no callback of the submit any more,
  -- its event is set with an outcome in the box, or its event is not set and its task runs and was not
  -- asked to cancel.
  pub Reach-not_stranded :
      (s : Submit V E)
      → Reach s
      → s.caller ≡ waiting
      → s.queue ≡ []
      → ((s.ev ≡ true) × (s.box ≢ none)) ⊎ ((s.ev ≡ false) × (s.task ≡ running false))
  Reach-not_stranded s r c q = let i = Reach-Inv r in ground (arith, i.shape, i.answer)
