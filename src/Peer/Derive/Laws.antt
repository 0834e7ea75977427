-- ===== src/Peer/Derive/Laws.antt =====
-- `derive_peer` and `resolve_peer` bind a caller to exactly one live session of its own.
use lsmf.Base.{
  String, ◌≡◌, ◌≢◌, refl, Bool, true, List, [], ◌∷◌, keep, arith, inl, inr, Bool-cases, ℤ, String,
  Bool-cases,
}
use lsmf.Base.Results.{ok}
use lsmf.Peer.Identity.{
  TransportCredentials, SessionIdentity, PeerIdentity, peer_identity, session_identity,
  transport_credentials,
}
use lsmf.Peer.Derive.{is_match, of_matches, derive_peer}

-- A session of the caller's own user and process that is active, local and graphical.
abbrev pub IsLive : TransportCredentials → SessionIdentity → Type 0
IsLive c s =
    (s.uid ≡ c.uid)
    × (s.transport_pid ≡ c.pid)
    × (s.active ≡ true)
    × (s.is_local ≡ true)
    × (s.graphical ≡ true)

-- The peer carries the transport's numbers and the session's names.
abbrev pub IsBound : TransportCredentials → SessionIdentity → PeerIdentity → Type 0
IsBound c s p =
    (p.pid ≡ c.pid)
    × (p.uid ≡ c.uid)
    × (p.unique_owner ≡ c.unique_owner)
    × (p.session_id ≡ s.session_id)
    × (p.seat_id ≡ s.seat_id)

is_match_sound : (c : TransportCredentials) (s : SessionIdentity) → is_match c s ≡ true → IsLive c s
unfolding is_match
is_match_sound c s h = ground arith

abbrev pub matching : TransportCredentials → List SessionIdentity → List SessionIdentity
matching c ss = keep (is_match c) ss

-- If `keep` leaves one item, that item passes the test.
keep_one {ℓ} : {A : Type ℓ} (p : A → Bool) (xs : List A) (x : A) → keep p xs ≡ x ∷ [] → p x ≡ true
keep_one p [] x h = cc
keep_one p (y ∷ xs) x h = elim (Bool-cases (p y)) [
  | inl t ↦ ground (arith, t)
  | inr f ↦ keep_one p xs x (ground (arith, f))
]

of_matches_sound :
    (c : TransportCredentials) (ms : List SessionIdentity) (p : PeerIdentity)
    → of_matches c ms ≡ ok p
    → (s : SessionIdentity) × (ms ≡ s ∷ []) × IsBound c s p
unfolding of_matches peer_identity
of_matches_sound c [] p h = cc
of_matches_sound c (s ∷ []) p h = (s, refl, ground arith)
of_matches_sound c (s ∷ t ∷ ms) p h = cc

-- A derived peer is not root, exactly one of the session records is a live session of the
-- caller's user and process, and the peer is made of the credentials and of that session.
pub derive_peer_sound :
    (c : TransportCredentials) (ss : List SessionIdentity) (p : PeerIdentity)
    → derive_peer c ss ≡ ok p
    → (c.uid ≢ 0) × (s : SessionIdentity) × (matching c ss ≡ s ∷ []) × IsLive c s × IsBound c s p
unfolding derive_peer
derive_peer_sound c ss p h =
    let nonroot : c.uid ≢ 0 = λ e. ground arith in
    let (s, one, bound) = of_matches_sound c (matching c ss) p (ground arith) in
    (nonroot, s, one, is_match_sound c s (keep_one (is_match c) ss s one), bound)

abbrev peer_of : TransportCredentials → SessionIdentity → PeerIdentity
peer_of c s = record {
  pid = c.pid;
  uid = c.uid;
  unique_owner = c.unique_owner;
  session_id = s.session_id;
  seat_id = s.seat_id;
}

peer_identity_ok :
    (pid uid : ℤ) (owner : String) (loc : Bool) (c : TransportCredentials)
    → transport_credentials pid uid owner loc ≡ ok c
    → c.uid ≢ 0
    → (sid seat : String) (suid spid : ℤ) (active sloc graphical : Bool) (s : SessionIdentity)
    → session_identity sid suid spid seat active sloc graphical ≡ ok s
    → peer_identity (ℤ.pos c.pid) (ℤ.pos c.uid) c.unique_owner s.session_id s.seat_id
      ≡ ok (peer_of c s)
unfolding transport_credentials session_identity peer_identity
peer_identity_ok pid uid owner loc c hc nz sid seat suid spid active sloc graphical s hs =
    ground arith

-- For validated credentials of a user other than root and a list of session records of which
-- exactly one, validated, is live, the derivation succeeds: the checks that the peer's own
-- constructor makes never fail there.
pub derive_peer_complete :
    (pid uid : ℤ) (owner : String) (loc : Bool) (c : TransportCredentials)
    → transport_credentials pid uid owner loc ≡ ok c
    → c.uid ≢ 0
    → (sid seat : String) (suid spid : ℤ) (active sloc graphical : Bool) (s : SessionIdentity)
    → session_identity sid suid spid seat active sloc graphical ≡ ok s
    → (ss : List SessionIdentity) → matching c ss ≡ s ∷ []
    → (p : PeerIdentity) × (derive_peer c ss ≡ ok p) × IsBound c s p
unfolding of_matches
derive_peer_complete pid uid owner loc c hc nz sid seat suid spid active sloc graphical s hs []
      one =
    cc
derive_peer_complete pid uid owner loc c hc nz sid seat suid spid active sloc graphical s hs
      (x ∷ ss) one =
    (
      peer_of c s,
      unfold derive_peer in
          rw (one, of_matches)
            (ground (
              arith,
              peer_identity_ok pid uid owner loc c hc nz sid seat suid spid active sloc graphical s
                  hs,
            )),
      (refl, refl, refl, refl, refl),
    )
