-- ===== src/Tests/Peers.antt =====
-- A desktop caller with one session, and a login service that knows it.
use lsmf.Base.{String, ◌≡◌, ◌≢◌, refl, true, false, [], ◌∷◌, str_eq, if◌then◌else◌, ℤ, arith}
use lsmf.Base.Results.{ok, err}
use lsmf.Peer.Identity.{
  TransportCredentials, SessionIdentity, PeerIdentity, transport_credentials, session_identity,
  is_safe_detail, peer_identity,
}
use lsmf.Peer.Derive.{
  is_match, derive_peer, LoginBackend, adapter_session, readable_sessions, of_matches, resolve_peer,
  resolve_with,
}
use lsmf.Peer.Derive.Laws.{matching, IsLive, IsBound, derive_peer_sound, derive_peer_complete}
use lsmf.Peer.Derive.Backend.{IsLiveSession, resolve_peer_sound}

abbrev caller : TransportCredentials
caller = record { pid = 4711; uid = 1000; unique_owner = ":1.42"; is_local = true }

abbrev console : SessionIdentity
console = record {
  session_id = "c2";
  uid = 1000;
  transport_pid = 4711;
  seat_id = "seat0";
  active = true;
  is_local = true;
  graphical = true;
}

-- the same user, logged in from afar
abbrev remote : SessionIdentity
remote = record {
  session_id = "c7";
  uid = 1000;
  transport_pid = 4711;
  seat_id = "seat0";
  active = true;
  is_local = false;
  graphical = false;
}

abbrev desktop : PeerIdentity
desktop = record {
  pid = 4711;
  uid = 1000;
  unique_owner = ":1.42";
  session_id = "c2";
  seat_id = "seat0";
}

derived : derive_peer caller (remote ∷ console ∷ []) ≡ ok desktop
unfolding derive_peer is_match of_matches peer_identity is_safe_detail
derived = refl

derive_peer_sound_example :
    (caller.uid ≢ 0)
    × (s : SessionIdentity) × (matching caller (remote ∷ console ∷ []) ≡ s ∷ [])
    × IsLive caller s
    × IsBound caller s desktop
derive_peer_sound_example = derive_peer_sound caller (remote ∷ console ∷ []) desktop derived

credentials_valid : transport_credentials (ℤ.pos 4711) (ℤ.pos 1000) ":1.42" true ≡ ok caller
unfolding transport_credentials is_safe_detail
credentials_valid = refl

session_valid : session_identity "c2" (ℤ.pos 1000) (ℤ.pos 4711) "seat0" true true true ≡ ok console
unfolding session_identity is_safe_detail
session_valid = refl

one_match : matching caller (remote ∷ console ∷ []) ≡ console ∷ []
unfolding is_match
one_match = refl

caller_not_root : caller.uid ≢ 0
caller_not_root e = ground arith

derive_peer_complete_example :
    (p : PeerIdentity) × (derive_peer caller (remote ∷ console ∷ []) ≡ ok p)
    × IsBound caller console p
derive_peer_complete_example =
    derive_peer_complete (ℤ.pos 4711) (ℤ.pos 1000) ":1.42" true caller credentials_valid
      caller_not_root "c2" "seat0" (ℤ.pos 1000) (ℤ.pos 4711) true true true console session_valid
      (remote ∷ console ∷ []) one_match

-- a login service that finds no session for the PID, and two of the user, one of them a terminal
abbrev logins : LoginBackend
logins = record {
  session_for_pid = λ pid. err "no session";
  sessions_for_uid = λ uid. ok ("c7" ∷ "c2" ∷ []);
  session_uid = λ i. ok (ℤ.pos 1000);
  session_seat = λ i. ok "seat0";
  session_active = λ i. ok true;
  session_remote = λ i. ok false;
  session_type = λ i. ok (if str_eq i "c2" then "wayland" else "tty");
}

resolved : resolve_peer logins caller ≡ ok desktop
unfolding resolve_peer resolve_with readable_sessions adapter_session session_identity derive_peer
    is_match of_matches peer_identity is_safe_detail
resolved = refl

resolve_peer_sound_example :
    (caller.uid ≢ 0)
    × (desktop.pid ≡ caller.pid)
    × (desktop.uid ≡ caller.uid)
    × IsLiveSession logins caller desktop
    × ((i : String) → logins.session_for_pid caller.pid ≡ ok i → desktop.session_id ≡ i)
resolve_peer_sound_example = resolve_peer_sound logins caller desktop resolved
