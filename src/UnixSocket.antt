-- ===== src/UnixSocket.antt =====
-- internal/unixsocket/listen.go: the socket that a process listens on. The directories that
-- `os.MkdirAll` makes are left out of the files.
pub mod Serving
mod Tests
use ez_vpn_lego.Prelude.{
  ◌≡◌, ◌⊎◌, inl, inr, refl, ℕ, String, Bool, true, false, Option, none, some, ◌==◌, eq_self,
  string_eq, Bool-cases, if◌then◌else◌,
}

pub data Entry : Type 0 where
  socket : (mode : ℕ) → Entry
  other : (content : ℕ) → Entry

abbrev pub Files : Type 0
Files = String → Option Entry

pub data ListenError : Type 0 where
  directory_failed not_a_socket remove_failed inspect_failed listen_failed chmod_failed :
      ListenError

-- The calls of the operating system that fail, and the mode that a new socket has before `os.Chmod`.
pub record ListenFaults : Type 0 where
  pub mkdir : Bool
  pub inspect : Bool  -- `os.Lstat` fails, for another reason than absence
  pub remove : Bool
  pub bind : Bool
  pub chmod : Bool
  pub first_mode : ℕ

abbrev pub put : Files → String → Option Entry → Files
put files path entry q = if q == path then entry else files q

-- From `net.ListenUnix` on. `Close` unlinks the socket.
unfoldable pub bound : ListenFaults → String → ℕ → Files → Option ListenError × Files
bound f path mode files =
    if f.bind
    then (some listen_failed, files)
    else (if f.chmod
        then (some chmod_failed, put (put files path (some (socket f.first_mode))) path none)
        else (none, put (put files path (some (socket f.first_mode))) path (some (socket mode))))

-- What is done with the entry that is there.
abbrev pub replaced : ListenFaults → String → ℕ → Files → Option Entry → Option ListenError × Files
replaced f path mode files none = bound f path mode files
replaced f path mode files (some (other content)) = (some not_a_socket, files)
replaced f path mode files (some (socket m)) =
    if f.remove then (some remove_failed, files) else bound f path mode (put files path none)

-- `Listen`
unfoldable pub listen : ListenFaults → String → ℕ → Files → Option ListenError × Files
listen f path mode files =
    if f.mkdir
    then (some directory_failed, files)
    else if f.inspect
    then (some inspect_failed, files)
    else replaced f path mode files (files path)

-- Nothing stands at the path but perhaps a socket.
abbrev pub IsFree : Option Entry → Type 0
IsFree none = Unit
IsFree (some (socket m)) = Unit
IsFree (some (other content)) = ⊥

-- What `Listen` leaves at its path, for what was there.
abbrev pub Leaves : ℕ → Option Entry → Option ListenError → Option Entry → Type 0
Leaves mode before result after =
    ((result ≡ none) × IsFree before × (after ≡ some (socket mode)))
    ⊎ ((e : ListenError) × (result ≡ some e)
        × ((after ≡ before) ⊎ (IsFree before × (after ≡ none))))

-- The same, with another path that is left alone.
abbrev pub Kept : String → ℕ → String → Files → Option Entry → Option ListenError × Files → Type 0
Kept path mode q files before (result, files') =
    Leaves mode before result (files' path) × (files' q ≡ files q)

module _ (f : ListenFaults) (path : String) (mode : ℕ) (q : String) (files : Files)
    (apart : (q == path) ≡ false) where
  bound-Kept :
      (start : Files) (before : Option Entry)
      → IsFree before
      → (start path ≡ before) ⊎ (start path ≡ none)
      → start q ≡ files q
      → Kept path mode q files before (bound f path mode start)
  unfolding bound
  bound-Kept start before free there same = elim (Bool-cases f.bind) [
    | inl failed ↦ rw failed (inr (listen_failed, refl, left there), same)
    | inr bound' ↦ elim (Bool-cases f.chmod) [
      | inl failed ↦
          rw (bound', failed, eq_self path, apart)
            (inr (chmod_failed, refl, inr (free, refl)), same)
      | inr changed ↦ rw (bound', changed, eq_self path, apart) (inl (refl, free, refl), same)
    ]
  ]
    where
      left :
          (start path ≡ before) ⊎ (start path ≡ none)
          → (start path ≡ before) ⊎ (IsFree before × (start path ≡ none))
      left (inl e) = inl e
      left (inr e) = inr (free, e)

  replaced-Kept :
      (before : Option Entry)
      → files path ≡ before
      → Kept path mode q files before (replaced f path mode files before)
  unfolding bound
  replaced-Kept none e = bound-Kept files none tt (inl e) refl
  replaced-Kept (some (other content)) e = (inr (not_a_socket, refl, inl e), refl)
  replaced-Kept (some (socket m)) e = elim (Bool-cases f.remove) [
    | inl failed ↦ rw failed (inr (remove_failed, refl, inl e), refl)
    | inr removed ↦ rw removed (
        bound-Kept (put files path none) (some (socket m)) tt (inr (rw (eq_self path) refl))
          (rw apart refl))
  ]

  -- `Listen` leaves every path but its own alone. If it succeeds, then nothing but perhaps a socket
  -- stood at its path, and a socket with the mode that was asked for stands there now; if it fails, then
  -- its path is as it was, or it is empty and held at most a socket before.
  pub listen-Kept : Kept path mode q files (files path) (listen f path mode files)
  unfolding listen bound
  listen-Kept = elim (Bool-cases f.mkdir) [
    | inl failed ↦ rw failed (inr (directory_failed, refl, inl refl), refl)
    | inr made ↦ elim (Bool-cases f.inspect) [
      | inl failed ↦ rw (made, failed) (inr (inspect_failed, refl, inl refl), refl)
      | inr seen ↦ rw (made, seen) (replaced-Kept (files path) refl)
    ]
  ]
