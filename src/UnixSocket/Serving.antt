-- ===== src/UnixSocket/Serving.antt =====
-- What internal/daemon/run.go and internal/helper/run.go have in common: they listen, answer until the
-- context is done or the server breaks, and close the socket.
use ez_vpn_lego.Prelude.{
  ◌≡◌, ◌⊎◌, inl, inr, refl, String, Bool, true, false, Option, none, some, List, [], ◌∷◌, All, ◌==◌,
  eq_self, string_eq,
}
use package.ez_vpn_lego.UnixSocket.{
  Files, ListenError, ListenFaults, put, listen, IsFree, Kept, listen-Kept,
}

-- Which case of the `select` ends the run: the context is done, and `Shutdown` succeeds or not;
-- `Serve` fails; or `Serve` ends with `http.ErrServerClosed`.
pub data Ending : Type 0 where
  stopped : (clean : Bool) → Ending
  broken closed : Ending

pub data ServeError : Type 0 where
  listening : ListenError → ServeError
  shutdown_failed serve_failed : ServeError

abbrev pub end_error : Ending → Option ServeError
end_error (stopped true) = none
end_error (stopped false) = some shutdown_failed
end_error broken = some serve_failed
end_error closed = none

-- A run: its error, what it has answered, and what it leaves.
pub record Run (Error Reply S : Type 0) : Type 0 where
  pub error : Option Error
  pub answers : List Reply
  pub files : Files
  pub state : S

module _ {Call Reply S : Type 0} (handler : Call → S → Reply × S) where
  -- The answers to requests, in the order in which they are served.
  unfoldable pub answer_all : List Call → S → List Reply × S
  answer_all [] s = ([], s)
  answer_all (call ∷ calls) s =
      let first = handler call s in
      let rest = answer_all calls first.1 in (first.0 ∷ rest.0, rest.1)

  -- From the result of `Listen` on; the socket is unlinked when its listener is closed.
  abbrev pub serving :
      String → List Call → Ending → S → Option ListenError × Files → Run ServeError Reply S
  serving path calls ending s (some e, files) = record {
    error = some (listening e);
    answers = [];
    files = files;
    state = s;
  }
  serving path calls ending s (none, files) = record {
    error = end_error ending;
    answers = (answer_all calls s).0;
    files = put files path none;
    state = (answer_all calls s).1;
  }

  unfoldable pub listen_and_serve :
      ListenFaults → String → List Call → Ending → Files → S → Run ServeError Reply S
  listen_and_serve faults path calls ending files s =
      serving path calls ending s (listen faults path 0o660 files)

  -- What every call in a list preserves, the requests of the list together preserve.
  answer_all-keeps :
      (P : S → Type 0) (Q : Call → Type 0)
      → ((call : Call) (s : S) → Q call → P s → P (handler call s).1)
      → (calls : List Call) (s : S) → All Q calls
      → P s
      → P (answer_all calls s).1
  unfolding answer_all
  answer_all-keeps P Q step [] s all kept = kept
  answer_all-keeps P Q step (call ∷ calls) s (this, others) kept =
      answer_all-keeps P Q step calls (handler call s).1 others (step call s this kept)

  -- So does a run.
  pub listen_and_serve-keeps :
      (P : S → Type 0) (Q : Call → Type 0)
      → ((call : Call) (s : S) → Q call → P s → P (handler call s).1)
      → (faults : ListenFaults) (path : String) (calls : List Call) (ending : Ending)
        (files : Files) (s : S)
      → All Q calls
      → P s
      → P (listen_and_serve faults path calls ending files s).state
  unfolding listen_and_serve
  listen_and_serve-keeps P Q step faults path calls ending files s all kept =
      served (listen faults path 0o660 files)
    where
      served : (x : Option ListenError × Files) → P (serving path calls ending s x).state
      served (none, left) = answer_all-keeps P Q step calls s all kept
      served (some e, left) = kept

-- Two states of the files around a run.
abbrev pub IsTidy : String → String → Files → Files → Type 0
IsTidy path q files files' =
    (files' q ≡ files q)
    × ((files' path ≡ files path) ⊎ (IsFree (files path) × (files' path ≡ none)))

module _ {Call Reply S : Type 0} (handler : Call → S → Reply × S) (faults : ListenFaults)
    (path : String) (calls : List Call) (ending : Ending) (q : String) (files : Files) (s : S)
    (apart : (q == path) ≡ false) where
  serving-IsTidy :
      (x : Option ListenError × Files)
      → Kept path 0o660 q files (files path) x
      → IsTidy path q files (serving handler path calls ending s x).files
  serving-IsTidy (some e, left) (inl (present, free, there), same) = cc
  serving-IsTidy (some e, left) (inr (e', fails, kept), same) = (same, kept)
  serving-IsTidy (none, left) (inl (absent, free, there), same) =
      rw (eq_self path, apart) (same, inr (free, refl))
  serving-IsTidy (none, left) (inr (e', fails, kept), same) = cc

  -- A run leaves every path but its socket's alone, and its socket's path as it was or empty; it is
  -- emptied only if at most a socket was there.
  pub listen_and_serve-IsTidy :
      IsTidy path q files (listen_and_serve handler faults path calls ending files s).files
  unfolding listen_and_serve
  listen_and_serve-IsTidy =
      serving-IsTidy (listen faults path 0o660 files) (listen-Kept faults path 0o660 q files apart)
