-- ===== src/Reader/Thread.antt =====
-- src/chunk_reader.cpp: the thread of a reader and its flags.
use dottorrent.Base.{
  Error, ◌≢◌, Bool, true, false, not, ◌&&◌, ◌||◌, ◌≡◌, refl, if◌then◌else◌, Run, ok, throws,
  logic_error, runtime_error, system_error, violation, Bool-cases, inl, inr, sym, subst, ◌∙◌,
  ok-injective,
}

-- `joinable` is that of the thread: it runs or has ended, and was not joined.
pub record ReaderThread : Type 0 where
  pub started : Bool
  pub cancelled : Bool
  pub joinable : Bool

unfoldable pub start_reader : ReaderThread → Run ReaderThread
start_reader r =
    if r.started
    then ok r
    else if r.cancelled
    then throws runtime_error
    else ok (record r { started = true; joinable = true })

unfoldable pub cancel_reader : ReaderThread → ReaderThread
cancel_reader r = record r { cancelled = true }

-- The join of a thread that was joined throws.
unfoldable pub wait_reader : ReaderThread → Run ReaderThread
wait_reader r =
    if not r.started
    then throws logic_error
    else if r.joinable
    then ok (record r { joinable = false })
    else throws system_error

unfoldable pub reader_done : ReaderThread → Bool
reader_done r = r.cancelled || (r.started && not r.joinable)

-- The destructor, whose `std::terminate` counts as a failed check.
unfoldable pub destroy_reader : ReaderThread → Run (Unit {0})
unfolding reader_done
destroy_reader r = if r.started && not (reader_done r) then violation else ok tt

wait-joined :
    (r : ReaderThread)
    → r.started ≡ true
    → r.joinable ≡ true
    → wait_reader r ≡ ok (record r { joinable = false })
unfolding wait_reader
wait-joined r on runs = rw (on, runs) refl

wait-unstarted : (r : ReaderThread) → r.started ≡ false → wait_reader r ≡ throws logic_error
unfolding wait_reader
wait-unstarted r off = rw off refl

wait-unjoinable :
    (r : ReaderThread) → r.started ≡ true → r.joinable ≡ false → wait_reader r ≡ throws system_error
unfolding wait_reader
wait-unjoinable r on gone = rw (on, gone) refl

throws-ok : {e : Error} {r : ReaderThread} → throws e ≢ ok r
throws-ok h = cc h

destroy-joined :
    (r : ReaderThread) → r.started ≡ true → destroy_reader (record r { joinable = false }) ≡ ok tt
unfolding destroy_reader reader_done
destroy-joined r on = elim (Bool-cases r.cancelled) [
  | inl c ↦ rw (on, c) refl
  | inr c ↦ rw (on, c) refl
]

-- A reader whose thread was joined can be destroyed.
wait-destroy_reader : (r r' : ReaderThread) → wait_reader r ≡ ok r' → destroy_reader r' ≡ ok tt
wait-destroy_reader r r' h = elim (Bool-cases r.started) [
  | inr off ↦ absurd (throws-ok (sym (wait-unstarted r off) ∙ h))
  | inl on ↦ elim (Bool-cases r.joinable) [
    | inr gone ↦ absurd (throws-ok (sym (wait-unjoinable r on gone) ∙ h))
    | inl runs ↦
        subst (λ x. destroy_reader x ≡ ok tt) (ok-injective (sym (wait-joined r on runs) ∙ h))
          (destroy-joined r on)
  ]
]
