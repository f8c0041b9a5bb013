-- ===== src/Session/States.antt =====
-- The states of a hasher or a verifier through its calls.
use dottorrent.Base.{
  true, ◌≡◌, refl, List, [], ◌∷◌, Run, ok, throws, violation, undefined, runtime_error, arith,
}
use dottorrent.Session.{Session, start, cancel, wait, done}

pub data Command : Type 0 where
  starting cancelling waiting : Command

unfoldable pub obey : Command → Session → Run Session
unfolding start cancel wait
obey starting s = start s
obey cancelling s = cancel s
obey waiting s = wait s

-- The session after a call; a call that throws leaves it as it was.
abbrev pub kept : Session → Run Session → Session
kept s (ok s') = s'
kept s (throws e) = s
kept s violation = s
kept s undefined = s

unfoldable pub run_session : List Command → Session → Session
unfolding obey
run_session [] s = s
run_session (c ∷ cs) s = run_session cs (kept s (obey c s))

done_throws : (c : Command) (s : Session) → done s ≡ true → obey c s ≡ throws runtime_error
unfolding obey start cancel wait done
done_throws starting s h = ground arith
done_throws cancelling s h = ground arith
done_throws waiting s h = ground arith

-- A session that is done stays as it is through every sequence of calls: all of them throw.
pub done_is_final : (cs : List Command) (s : Session) → done s ≡ true → run_session cs s ≡ s
unfolding run_session
done_is_final [] s h = refl
done_is_final (c ∷ cs) s h = rw (done_throws c s h) (done_is_final cs s h)
