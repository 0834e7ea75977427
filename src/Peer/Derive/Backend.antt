-- ===== src/Peer/Derive/Backend.antt =====
-- What a peer that `resolve_peer` returns says of the login backend's answers.
use lsmf.Base.{
  String, ◌≡◌, ◌≢◌, refl, Bool, true, false, not, List, [], ◌∷◌, keep, arith, inl, inr, Bool-cases,
  ℤ, ◌⊎◌, All, eq_iff, subst,
}
use lsmf.Base.Results.{Result, ok, err, >>=-eq-ok}
use lsmf.Peer.Identity.{TransportCredentials, SessionIdentity, PeerIdentity, session_identity}
use lsmf.Peer.Derive.{
  is_match, derive_peer, LoginBackend, adapter_session, readable_sessions, resolve_with,
  resolve_peer,
}
use lsmf.Peer.Derive.Laws.{derive_peer_sound}

-- What the backend said of a session record.
abbrev IsRecorded : LoginBackend → TransportCredentials → SessionIdentity → Type 0
IsRecorded b c s =
    (b.session_uid s.session_id ≡ ok (ℤ.pos c.uid))
    × (b.session_seat s.session_id ≡ ok s.seat_id)
    × (b.session_active s.session_id ≡ ok s.active)
    × (b.session_remote s.session_id ≡ ok (not s.is_local))
    × (s.graphical ≡ true
        → (b.session_type s.session_id ≡ ok "x11") ⊎ (b.session_type s.session_id ≡ ok "wayland"))

adapter_session_sound :
    (b : LoginBackend) (i : String) (c : TransportCredentials) (s : SessionIdentity)
    → adapter_session b i c ≡ ok s
    → (s.session_id ≡ i) × IsRecorded b c s
unfolding adapter_session session_identity
adapter_session_sound b i c s h =
    let (uid, eu, h₁) = >>=-eq-ok (b.session_uid i) _ h in
    let (seat, es, h₂) = >>=-eq-ok (b.session_seat i) _ h₁ in
    let (active, ea, h₃) = >>=-eq-ok (b.session_active i) _ h₂ in
    let (remote, er, h₄) = >>=-eq-ok (b.session_remote i) _ h₃ in
    let (type, et, h₅) = >>=-eq-ok (b.session_type i) _ h₄ in
    ground (arith, eq_iff type "x11", eq_iff type "wayland")

readable_sessions_sound :
    (b : LoginBackend) (c : TransportCredentials) (is : List String)
    → All (IsRecorded b c) (readable_sessions b c is)
unfolding readable_sessions
readable_sessions_sound b c [] = tt
readable_sessions_sound b c (i ∷ is) =
    go (adapter_session b i c) (adapter_session_sound b i c) (readable_sessions_sound b c is)
  where
    go :
        (r : Result SessionIdentity)
        → ((s : SessionIdentity) → r ≡ ok s → (s.session_id ≡ i) × IsRecorded b c s)
        → All (IsRecorded b c) (readable_sessions b c is)
        → All (IsRecorded b c) (elim r [
          | ok session ↦ session ∷ readable_sessions b c is
          | err _ ↦ readable_sessions b c is
        ])
    go (ok s) h t = ((h s refl).1, t)
    go (err _) h t = t

keep_one-All {ℓ κ} :
    {A : Type ℓ} (P : A → Type κ) (p : A → Bool) (xs : List A) (x : A)
    → All P xs
    → keep p xs ≡ x ∷ []
    → P x
keep_one-All P p [] x a h = cc
keep_one-All P p (y ∷ xs) x a h = elim (Bool-cases (p y)) [
  | inl t ↦ subst P (ground (arith, t)) a.0
  | inr f ↦ keep_one-All P p xs x a.1 (ground (arith, f))
]

-- What the backend says of a resolved peer's session: it is the peer's user's, active, not
-- remote and of a graphical type, and its seat is the peer's.
abbrev pub IsLiveSession : LoginBackend → TransportCredentials → PeerIdentity → Type 0
IsLiveSession b c p =
    (b.session_uid p.session_id ≡ ok (ℤ.pos c.uid))
    × (b.session_seat p.session_id ≡ ok p.seat_id)
    × (b.session_active p.session_id ≡ ok true)
    × (b.session_remote p.session_id ≡ ok false)
    × ((b.session_type p.session_id ≡ ok "x11") ⊎ (b.session_type p.session_id ≡ ok "wayland"))

derived_from_recorded :
    (b : LoginBackend) (c : TransportCredentials) (ss : List SessionIdentity) (p : PeerIdentity)
    → All (IsRecorded b c) ss
    → derive_peer c ss ≡ ok p
    → (c.uid ≢ 0) × (p.pid ≡ c.pid) × (p.uid ≡ c.uid) × IsLiveSession b c p
derived_from_recorded b c ss p a h =
    let (nz, s, one, live, bound) = derive_peer_sound c ss p h in
    let r : IsRecorded b c s = keep_one-All (IsRecorded b c) (is_match c) ss s a one in
    (nz, bound.0, bound.1, ground arith)

resolve_with_sound :
    (b : LoginBackend) (c : TransportCredentials) (p : PeerIdentity) (r : Result String)
    → resolve_with b c r ≡ ok p
    → (c.uid ≢ 0)
      × (p.pid ≡ c.pid)
      × (p.uid ≡ c.uid)
      × IsLiveSession b c p
      × ((i : String) → r ≡ ok i → p.session_id ≡ i)
unfolding resolve_with
resolve_with_sound b c p (ok i) h =
    let (s, e, h₁) = >>=-eq-ok (adapter_session b i c) _ h in
    let (same, recorded) = adapter_session_sound b i c s e in
    let (nz, pid, uid, live) = derived_from_recorded b c (s ∷ []) p (recorded, tt) h₁ in
    let (_, s', one, _, bound) = derive_peer_sound c (s ∷ []) p h₁ in
    let kept : s ≡ s' = ground arith in (nz, pid, uid, live, λ j q. cc (bound.3, kept, same, q))
resolve_with_sound b c p (err m) h =
    let (is, e, h₁) = >>=-eq-ok (b.sessions_for_uid c.uid) _ h in
    let (nz, pid, uid, live) =
      derived_from_recorded b c (readable_sessions b c is) p (readable_sessions_sound b c is) h₁ in
    (nz, pid, uid, live, λ j q. cc)

-- A resolved peer is never root, has the PID and UID of the transport, and is bound to a session
-- that the login backend reports, at that moment, as owned by that user, active, local and
-- graphical; where the PID has a session of its own, it is that session.
pub resolve_peer_sound :
    (b : LoginBackend) (c : TransportCredentials) (p : PeerIdentity)
    → resolve_peer b c ≡ ok p
    → (c.uid ≢ 0)
      × (p.pid ≡ c.pid)
      × (p.uid ≡ c.uid)
      × IsLiveSession b c p
      × ((i : String) → b.session_for_pid c.pid ≡ ok i → p.session_id ≡ i)
unfolding resolve_peer
resolve_peer_sound b c p h = resolve_with_sound b c p (b.session_for_pid c.pid) h
