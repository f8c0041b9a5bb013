-- ===== src/Processor.antt =====
-- src/chunk_processor_base.cpp and the `run` of src/chunk_hasher_single_buffer.cpp, which is also that of
-- src/chunk_hasher_multi_buffer.cpp: the pool of hasher threads over a queue of chunks. The phases of a
-- thread are those of Pool, of which this `run` has no last loop; a thread ends at once after it has set
-- its flag, and it looks for the stop request behind a wake-up. A wake-up is a chunk without data and with the largest indices.
pub mod Full
pub mod Examples
use dottorrent.Base.{
  ℕ, zero, suc, ◌-◌, ◌^◌, Bool, true, false, not, ◌&&◌, ◌||◌, Option, none, some, List, [], ◌∷◌,
  ◌++◌, map, get_elem?, length, set, replicate, ltb, ◌==◌, if◌then◌else◌, Run, ok, violation,
  expects, ◌>>=◌, ◌>>◌,
}
use dottorrent.Queue.{Queue, make_queue, push, pop, try_pop}
use dottorrent.Reader.{DataChunk}
use dottorrent.Pool.{
  Phase, Worker, looping, popping, working, leaving, draining, handling, marking, sizing, emptying,
  finished, failed, idle_worker, stop_worker, all_done, all_joinable, invocation, mark, WaitPhase,
  called, waking, retrying, joining, returned, unmet,
}

pub record Processor : Type 0 where
  pub queue : Queue DataChunk
  pub workers : List (Worker DataChunk)
  pub started : Bool
  pub cancelled : Bool
  pub stopped : Bool
  pub done_flags : List Bool
  -- The chunks given to `hash_chunk` so far.
  pub hashed : List DataChunk

abbrev pub wake_up : DataChunk
wake_up = record { piece_index = 2 ^ 32 - 1; file_index = 2 ^ 32 - 1; bytes = none }

unfoldable pub is_wake_up : DataChunk → Bool
is_wake_up c = elim c.bytes [
  | none ↦ c.piece_index == (2 ^ 32 - 1) && (c.file_index == (2 ^ 32 - 1))
  | some d ↦ false
]

unfoldable pub make_processor : ℕ → ℕ → Run Processor
make_processor capacity thread_count = do
  expects (ltb 0 thread_count)
  ok (record {
    queue = make_queue capacity;
    workers = replicate thread_count idle_worker;
    started = false;
    cancelled = false;
    stopped = false;
    done_flags = replicate thread_count false;
    hashed = [];
  })

unfoldable pub start : Processor → Run Processor
start p = do
  expects (not p.started)
  expects (not p.cancelled)
  ok (record p {
    workers = map (λ w. idle_worker) p.workers;
    done_flags = map (λ w. false) p.workers;
    started = true;
  })

unfoldable pub request_stop : Processor → Processor
request_stop p = record p { workers = map stop_worker p.workers }

unfoldable pub request_cancellation : Processor → Processor
unfolding request_stop
request_cancellation p = request_stop (record p { cancelled = true })

unfoldable pub running : Processor → Bool
running p = p.started && (not p.cancelled && not p.stopped)

unfoldable pub done : Processor → Bool
unfolding all_done
done p = p.cancelled || (p.started && all_done p.done_flags)

-- What the first and the second loop do with a chunk. In the first one the phase `sizing` stands for a
-- wake-up that was popped, behind which the thread looks for the stop request.
abbrev pub take_chunk :
    Option (DataChunk × Queue DataChunk) → Option (Phase DataChunk × Queue DataChunk)
take_chunk none = none
take_chunk (some (c, q)) = some (if is_wake_up c then sizing else working c, q)

abbrev pub take_pending :
    Option (DataChunk × Queue DataChunk) → Queue DataChunk → Phase DataChunk × Queue DataChunk
take_pending none q = (marking, q)
take_pending (some (c, q')) q = (if is_wake_up c then marking else handling c, q')

-- One step of `run`; `none` where the thread waits for a chunk or is at the end.
unfoldable pub run_step :
    Bool → Bool → Queue DataChunk → Phase DataChunk → Option (Phase DataChunk × Queue DataChunk)
unfolding is_wake_up
run_step stop cancelled q looping = some (if stop then leaving else popping, q)
run_step stop cancelled q popping = take_chunk (pop q)
run_step stop cancelled q (working c) = some (looping, q)
run_step stop cancelled q leaving = some (if cancelled then marking else draining, q)
run_step stop cancelled q draining = some (take_pending (try_pop q) q)
run_step stop cancelled q (handling c) = some (draining, q)
run_step stop cancelled q marking = some (finished, q)
run_step stop cancelled q sizing = some (if stop then leaving else failed wake_up, q)
run_step stop cancelled q emptying = none
run_step stop cancelled q finished = none
run_step stop cancelled q (failed c) = none

abbrev pub moved :
    Processor → ℕ → Worker DataChunk → Option (Phase DataChunk × Queue DataChunk) → Option Processor
moved p i w none = none
moved p i w (some (phase, q)) = some (record p {
  queue = q;
  workers = set p.workers i (record w { phase = phase });
  done_flags = mark w.phase p.done_flags i;
  hashed = p.hashed ++ invocation w.phase;
})

abbrev pub step_of : Processor → ℕ → Option (Worker DataChunk) → Option Processor
step_of p i none = none
step_of p i (some w) = moved p i w (run_step w.stop_requested p.cancelled p.queue w.phase)

unfoldable pub worker_step : Processor → ℕ → Option Processor
unfolding run_step
worker_step p i = step_of p i (get_elem? p.workers i)

abbrev pub woken : Processor → WaitPhase → Option (Queue DataChunk) → Option (Processor × WaitPhase)
woken p next none = none
woken p next (some q) = some (record p { queue = q }, next)

-- One step of `wait`; `none` where it blocks or has ended. Both loops push with the call that waits for
-- room, and the last check is for the flags alone.
unfoldable pub wait_step : Processor → WaitPhase → Option (Processor × WaitPhase)
unfolding done all_done all_joinable
wait_step p called = some (p, if p.started then waking (length p.workers) else returned)
wait_step p (waking zero) = some (p, retrying (length p.workers))
wait_step p (waking (suc k)) = woken p (waking k) (push p.queue wake_up)
wait_step p (retrying zero) = some (p, joining)
wait_step p (retrying (suc k)) =
    let next = woken p (retrying k) (push p.queue wake_up) in
    if done p then some (p, joining) else next
wait_step p joining =
    if all_joinable p.workers
    then some (p, if all_done p.done_flags then returned else unmet)
    else none
wait_step p returned = none
wait_step p unmet = none

unfoldable pub destroy : Processor → Processor × WaitPhase
unfolding done request_stop
destroy p =
    if p.started && not (done p)
    then (request_stop p, called)
    else (p, if all_done p.done_flags then returned else unmet)
