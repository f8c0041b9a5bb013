-- ===== src/Pool/Fresh.antt =====
-- What `start` leaves: threads at the first test of `run`, and no flag set.
use dottorrent.Base.{
  ℕ, zero, suc, ◌≡◌, refl, Bool, true, false, not, some, List, [], ◌∷◌, map, get_elem?, length-map,
  sym, ap, subst, ◌∙◌, ok, expects, ◌>>◌, ok-injective,
}
use dottorrent.Pool.{Pool, Worker, idle_worker, start}
use dottorrent.Pool.Turn.{some-injective}
use dottorrent.Pool.Shape.{only_work, only_work-first, IsFine}
use dottorrent.Pool.Closing.{IsOrderly}
use dottorrent.Pool.Waiting.{IsMarked}

module _ {ℓ} {T : Type ℓ} where
  idle_threads :
      (ws : List (Worker T)) (i : ℕ) (w : Worker T)
      → get_elem? (map (λ v. idle_worker) ws) i ≡ some w
      → w ≡ idle_worker
  idle_threads [] i w h = cc
  idle_threads (v ∷ ws) zero w h = sym (some-injective h)
  idle_threads (v ∷ ws) (suc i) w h = idle_threads ws i w h

  started_ready :
      (pool : Pool T)
      → pool.cancelled ≡ false
      → only_work pool.queue.items ≡ true
      → (p : Pool T)
      → p ≡ record pool {
        workers = map (λ w. idle_worker) pool.workers;
        done_flags = map (λ w. false) pool.workers;
        started = true;
      }
      → IsMarked p × IsOrderly false p
  started_ready pool c work p e =
      subst (λ r. IsMarked r × IsOrderly false r) (sym e)
        (
          record {
            is_started = refl;
            flags =
                length-map pool.workers (λ w. false)
                ∙ sym (length-map pool.workers (λ w. idle_worker));
            marked = λ i w h past. cc (idle_threads pool.workers i w h);
          },
          record {
            not_cancelled = c;
            shaped = record {
              front = only_work-first pool.queue.items work;
              open_work = λ o. work;
            };
            unstopped = λ o i w h. ap (λ v. v.stop_requested) (idle_threads pool.workers i w h);
            fine = λ i w h.
                subst (λ v. IsFine false pool.queue.items v.phase)
                  (sym (idle_threads pool.workers i w h)) tt;
          },
        )

  start_checks :
      (started cancelled : Bool) (next pool' : Pool T)
      → (do expects (not started); expects (not cancelled); ok next) ≡ ok pool'
      → (cancelled ≡ false) × (next ≡ pool')
  start_checks true cancelled next pool' h = cc
  start_checks false true next pool' h = cc
  start_checks false false next pool' h = (refl, ok-injective h)

  -- Where `start` returns, on a queue that holds work only, what the interleavings begin with holds: the
  -- pool is started and not cancelled, no thread is asked to stop, and no flag is set.
  pub start_ready :
      (pool pool' : Pool T)
      → start pool ≡ ok pool'
      → only_work pool.queue.items ≡ true
      → IsMarked pool' × IsOrderly false pool'
  unfolding start
  start_ready pool pool' h work =
      let r =
        start_checks pool.started pool.cancelled
          (record pool {
            workers = map (λ w. idle_worker) pool.workers;
            done_flags = map (λ w. false) pool.workers;
            started = true;
          })
          pool' h in
      started_ready pool (r.0) work pool' (sym (r.1))
