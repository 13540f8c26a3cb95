-- ===== src/UnixSocket/Tests.antt =====
-- A socket that an earlier process has left, and a file that is none.
use ez_vpn_lego.Prelude.{◌≡◌, refl, String, false, some, ◌==◌, string_eq, if◌then◌else◌}
use package.ez_vpn_lego.UnixSocket.{
  Files, socket, other, not_a_socket, ListenFaults, Kept, bound, listen, listen-Kept,
}

abbrev calm : ListenFaults
calm = record {
  mkdir = false;
  inspect = false;
  remove = false;
  bind = false;
  chmod = false;
  first_mode = 0o755;
}

abbrev files : Files
files path = if path == "/s" then some (socket 0o660) else some (other 1)

refused : (listen calm "/f" 0o660 files).0 ≡ some not_a_socket
unfolding listen string_eq
refused = refl

listens : (listen calm "/s" 0o600 files).1 "/s" ≡ some (socket 0o600)
unfolding listen bound string_eq
listens = refl

apart : ◌==◌ {A = String} "/f" "/s" ≡ false
unfolding string_eq
apart = refl

listen-Kept_example : Kept "/s" 0o600 "/f" files (files "/s") (listen calm "/s" 0o600 files)
listen-Kept_example = listen-Kept calm "/s" 0o600 "/f" files apart
