-- ===== src/Processor/Full.antt =====
-- `wait` on hasher threads that have all ended, by the room that the queue has for its wake-ups.
use dottorrent.Base.{
  Bool-cases, ltb→lt, inl, inr, get_elem?, ℕ, zero, suc, ◌+◌, ◌<◌, ◌≤◌, ◌≡◌, ◌≢◌, refl, true, none,
  some, List, [], ◌∷◌, ◌++◌, length, length-append, ltb, arith, ap, ◌∙◌,
}
use dottorrent.Queue.{push}
use dottorrent.Reader.{DataChunk}
use dottorrent.Pool.{
  Phase, Worker, looping, popping, working, leaving, draining, handling, marking, sizing, emptying,
  failed, finished, is_finished, all_done, all_joinable, WaitPhase, called, waking, retrying,
  joining, returned,
}
use dottorrent.Processor.{Processor, wake_up, done, run_step, worker_step, step_of, wait_step}

-- The steps of `wait` alone.
pub data WaitSteps : Processor → WaitPhase → Processor → WaitPhase → Type 0 where
  waited : {p : Processor} {ph : WaitPhase} → WaitSteps p ph p ph
  waits_on :
      {p p' p'' : Processor} {ph ph' ph'' : WaitPhase}
      → wait_step p ph ≡ some (p', ph')
      → WaitSteps p' ph' p'' ph''
      → WaitSteps p ph p'' ph''

-- Where the queue has room for all wake-ups, they are pushed and nothing else changes.
pub record Woken (p : Processor) (k : ℕ) : Type 0 where
  pub last : Processor
  pub steps : WaitSteps p (waking k) last (waking 0)
  pub workers : last.workers ≡ p.workers
  pub flags : last.done_flags ≡ p.done_flags
  pub start : last.started ≡ p.started

abbrev pushed : Processor → Processor
pushed p = record p { queue = record p.queue { items = p.queue.items ++ wake_up ∷ [] } }

length-pushed : (p : Processor) → length (pushed p).queue.items ≡ length p.queue.items + 1
length-pushed p = length-append p.queue.items (wake_up ∷ [])

wakes_once :
    (p : Processor) (k : ℕ)
    → length p.queue.items < p.queue.capacity
    → wait_step p (waking (suc k)) ≡ some (pushed p, waking k)
unfolding wait_step push
wakes_once p k room =
    let free : ltb (length p.queue.items) p.queue.capacity ≡ true = ground arith in rw free refl

wakes_all : (k : ℕ) (p : Processor) → length p.queue.items + k ≤ p.queue.capacity → Woken p k
wakes_all zero p room = record {
  last = p;
  steps = waited;
  workers = refl;
  flags = refl;
  start = refl;
}
wakes_all (suc k) p room =
    let n = length-pushed p in
    let w = wakes_all k (pushed p) (omega (arith, n, room)) in
    record {
      last = w.last;
      steps = waits_on (wakes_once p k (omega (arith, room))) (w.steps);
      workers = w.workers;
      flags = w.flags;
      start = w.start;
    }

-- Where it has not, a push blocks.
pub record Blocked (p : Processor) (ph : WaitPhase) : Type 0 where
  pub last : Processor
  pub phase : WaitPhase
  pub steps : WaitSteps p ph last phase
  pub no_step : wait_step last phase ≡ none
  pub not_back : phase ≢ returned
  pub workers : last.workers ≡ p.workers

waking-returned : (k : ℕ) → waking k ≢ returned
waking-returned k e = cc e

blocks :
    (k : ℕ) (p : Processor)
    → length p.queue.items ≤ p.queue.capacity
    → p.queue.capacity < length p.queue.items + k
    → Blocked p (waking k)
unfolding wait_step push
blocks zero p fit full = absurd (omega arith)
blocks (suc k) p fit full = elim (Bool-cases (ltb (length p.queue.items) p.queue.capacity)) [
  | inl e ↦
      let room = ltb→lt (length p.queue.items) p.queue.capacity e in
      let n = length-pushed p in
      let b = blocks k (pushed p) (omega (arith, n, room)) (omega (arith, n, full)) in
      record {
        last = b.last;
        phase = b.phase;
        steps = waits_on (wakes_once p k room) (b.steps);
        no_step = b.no_step;
        not_back = b.not_back;
        workers = b.workers;
      }
  | inr e ↦ record {
    last = p;
    phase = waking (suc k);
    steps = waited;
    no_step = rw e refl;
    not_back = waking-returned (suc k);
    workers = refl;
  }
]

finished_phase : (ph : Phase DataChunk) → is_finished ph ≡ true → ph ≡ finished
finished_phase looping h = absurd (cc h)
finished_phase popping h = absurd (cc h)
finished_phase leaving h = absurd (cc h)
finished_phase draining h = absurd (cc h)
finished_phase marking h = absurd (cc h)
finished_phase sizing h = absurd (cc h)
finished_phase emptying h = absurd (cc h)
finished_phase finished h = refl
finished_phase (working c) h = absurd (cc h)
finished_phase (handling c) h = absurd (cc h)
finished_phase (failed c) h = absurd (cc h)

-- Threads at the end take no step.
joinable_rest :
    (p : Processor) (i : ℕ) (ws : List (Worker DataChunk)) (j : ℕ)
    → all_joinable ws ≡ true
    → step_of p i (get_elem? ws j) ≡ none
unfolding all_joinable run_step
joinable_rest p i [] j h = refl
joinable_rest p i (w ∷ ws) zero h =
    let first : is_finished w.phase ≡ true = ground arith in rw (finished_phase w.phase first) refl
joinable_rest p i (w ∷ ws) (suc j) h =
    let others : all_joinable ws ≡ true = ground arith in joinable_rest p i ws j others

-- On a started processor whose threads are all at the end, with a queue that is within its capacity but has
-- less room than there are threads: `wait` comes to a push that blocks, before it returns, and then no thread
-- can take a step either, so it blocks for ever.
pub wait_blocks :
    (p : Processor)
    → p.started ≡ true
    → all_joinable p.workers ≡ true
    → length p.queue.items ≤ p.queue.capacity
    → p.queue.capacity < length p.queue.items + length p.workers
    → (b : Blocked p called) × ((i : ℕ) → worker_step b.last i ≡ none)
unfolding wait_step worker_step
wait_blocks p on ended fit full =
    let b = blocks (length p.workers) p fit full in
    (
      record {
        last = b.last;
        phase = b.phase;
        steps = waits_on (rw on refl) (b.steps);
        no_step = b.no_step;
        not_back = b.not_back;
        workers = b.workers;
      },
      λ i. rw (b.workers) (joinable_rest b.last i p.workers i ended),
    )

then_steps :
    {p p' p'' : Processor} {ph ph' ph'' : WaitPhase}
    → WaitSteps p ph p' ph'
    → WaitSteps p' ph' p'' ph''
    → WaitSteps p ph p'' ph''
then_steps waited r = r
then_steps (waits_on e s) r = waits_on e (then_steps s r)

ends_joined :
    (p : Processor)
    → all_joinable p.workers ≡ true
    → all_done p.done_flags ≡ true
    → WaitSteps p joining p returned
unfolding wait_step
ends_joined p ended flags = waits_on (rw (ended, flags) refl) waited

ends_retrying :
    (p : Processor) (k : ℕ)
    → p.started ≡ true
    → all_joinable p.workers ≡ true
    → all_done p.done_flags ≡ true
    → WaitSteps p (retrying k) p returned
unfolding wait_step done
ends_retrying p zero on ended flags = waits_on refl (ends_joined p ended flags)
ends_retrying p (suc k) on ended flags =
    let is_done : done p ≡ true = ground arith in
    waits_on (rw is_done refl) (ends_joined p ended flags)

-- On a started processor whose threads are all at the end with their flags set, and whose queue has room for a
-- wake-up for each of them, `wait` alone comes to its return.
pub wait_ends :
    (p : Processor)
    → p.started ≡ true
    → all_joinable p.workers ≡ true
    → all_done p.done_flags ≡ true
    → length p.queue.items + length p.workers ≤ p.queue.capacity
    → (p' : Processor) × WaitSteps p called p' returned
unfolding wait_step
wait_ends p on ended flags room =
    let w = wakes_all (length p.workers) p room in
    let q = w.last in
    let back =
      ends_retrying q (length q.workers) (w.start ∙ on) (ap all_joinable (w.workers) ∙ ended)
        (ap all_done (w.flags) ∙ flags) in
    (q, waits_on (rw on refl) (then_steps (w.steps) (waits_on refl back)))
