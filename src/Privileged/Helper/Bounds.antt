-- ===== src/Privileged/Helper/Bounds.antt =====
-- The bounds that `_validated_result` puts on what an executor answers.
use Prim.Native.Char.{code}
use Prim.Native.Nat.{◌+◌, ◌-◌, ◌≤◌}
use lsmf.Base.{
  ℕ, zero, suc, String, ◌≡◌, refl, sym, ◌∙◌, ap, Bool, true, false, not, ◌||◌, ◌&&◌, List, [], ◌∷◌,
  arith, ltb, leb, ◌==◌, length, str_eq, eq_iff, if◌then◌else◌, ℤ,
}
use lsmf.Base.Results.{Result, ok, err, ◌>>=◌, raise_if}
use lsmf.Peer.Identity.{Action, action_eq_iff, is_request_id}
use lsmf.Sysctl.Manifest.{ids_eq}
use lsmf.Privileged.Models.{
  ResultStatus, bytes_of, has_nul, utf8_size, is_version, validate_text, output_total,
  PrivilegedRequest, PrivilegedResult, privileged_result,
}
use lsmf.Privileged.Helper.{fitting, bound_text, bound_output, validated_result}

bytes-fitting : (n : ℕ) (s : String) → bytes_of (fitting n s) ≤ n
bytes-fitting n String.[] = omega arith
bytes-fitting n (String.◌∷◌ c s) =
    go (leb (utf8_size (code c)) n) refl (bytes-fitting (n - utf8_size (code c)) s)
  where
    Rest : Type 0
    Rest = bytes_of (fitting (n - utf8_size (code c)) s) ≤ n - utf8_size (code c)

    longer : String
    longer = String.◌∷◌ c (fitting (n - utf8_size (code c)) s)

    go :
        (o : Bool)
        → leb (utf8_size (code c)) n ≡ o
        → Rest
        → bytes_of (if o then longer else String.[]) ≤ n
    go true e rest =
        let fits : utf8_size (code c) ≤ n = ground (arith, e) in omega (arith, fits, rest)
    go false e rest = omega arith

bytes-bound_text : (s : String) (n : ℕ) → bytes_of (bound_text s n) ≤ n
unfolding bound_text
bytes-bound_text s n = go (n == 0) (leb (bytes_of s) n) refl
  where
    go :
        (o p : Bool)
        → leb (bytes_of s) n ≡ p
        → bytes_of (if o then "" else if p then s else fitting n s) ≤ n
    go true p e = omega arith
    go false true e = ground (arith, e)
    go false false e = bytes-fitting n s

nul-fitting : (n : ℕ) (s : String) → has_nul s ≡ false → has_nul (fitting n s) ≡ false
nul-fitting n String.[] h = refl
nul-fitting n (String.◌∷◌ c s) h =
    go (leb (utf8_size (code c)) n) (nul-fitting (n - utf8_size (code c)) s)
  where
    Rest : Type 0
    Rest = has_nul s ≡ false → has_nul (fitting (n - utf8_size (code c)) s) ≡ false

    go :
        (o : Bool)
        → Rest
        → has_nul (if o then String.◌∷◌ c (fitting (n - utf8_size (code c)) s) else String.[])
          ≡ false
    go true rest = ground (arith, h, rest)
    go false rest = refl

nul-bound_text : (s : String) (n : ℕ) → has_nul s ≡ false → has_nul (bound_text s n) ≡ false
unfolding bound_text
nul-bound_text s n h = go (n == 0) (leb (bytes_of s) n)
  where
    go : (o p : Bool) → has_nul (if o then "" else if p then s else fitting n s) ≡ false
    go true p = refl
    go false true = h
    go false false = nul-fitting n s h

-- the bytes of all items
abbrev pub bytes_all : List String → ℕ
bytes_all [] = 0
bytes_all (s ∷ ss) = bytes_of s + bytes_all ss

bytes-bound_output : (k n : ℕ) (ss : List String) → bytes_all (bound_output k n ss) ≤ n
unfolding bound_output
bytes-bound_output zero n ss = omega arith
bytes-bound_output (suc k) n [] = omega arith
bytes-bound_output (suc k) n (s ∷ ss) = ground (
  arith,
  bytes-bound_text s (if leb 4096 n then 4096 else n),
  bytes-bound_output k (n - bytes_of (bound_text s (if leb 4096 n then 4096 else n))) ss,
)

-- What passes out of the helper answers the request that came in, and its texts are bounded: 512
-- bytes of message and 32768 bytes of output in all.
pub validated_result_bounded :
    (r : PrivilegedRequest) (s t : PrivilegedResult)
    → validated_result r s ≡ ok t
    → (t.request_id ≡ r.request_id)
      × (t.action ≡ r.action)
      × (t.status ≡ s.status)
      × (bytes_of t.message ≤ 512)
      × (bytes_all t.output ≤ 32768)
unfolding validated_result privileged_result
validated_result_bounded r s t h = ground (
  arith,
  eq_iff s.request_id r.request_id,
  action_eq_iff s.action r.action,
  bytes-bound_text s.message 512,
  bytes-bound_output 64 32768 s.output,
)

-- No item holds a NUL.
abbrev clean : List String → Bool
clean [] = true
clean (s ∷ ss) = not (has_nul s) && clean ss

clean-output_total : (ss : List String) (n : ℕ) → output_total ss ≡ ok n → clean ss ≡ true
unfolding output_total validate_text
clean-output_total [] n h = refl
clean-output_total (s ∷ ss) n h = go (output_total ss) refl (clean-output_total ss) h
  where
    go :
        (o : Result ℕ)
        → output_total ss ≡ o
        → ((m : ℕ) → output_total ss ≡ ok m → clean ss ≡ true)
        → (validate_text s 4096 >>= λ _. o >>= λ rest. ok (bytes_of s + rest)) ≡ ok n
        → clean (s ∷ ss) ≡ true
    go (ok m) e rest h = ground (arith, rest m e, h)
    go (err x) e rest h = ground (arith, h)

output_total-clean :
    (k n : ℕ) (ss : List String)
    → clean ss ≡ true
    → output_total (bound_output k n ss) ≡ ok (bytes_all (bound_output k n ss))
unfolding output_total bound_output validate_text
output_total-clean zero n ss h = refl
output_total-clean (suc k) n [] h = refl
output_total-clean (suc k) n (s ∷ ss) h =
    go (bound_output k left ss) (n - bytes_of bounded == 0) (output_total-clean k left ss)
  where
    most : ℕ
    most = if leb 4096 n then 4096 else n

    bounded : String
    bounded = bound_text s most

    left : ℕ
    left = n - bytes_of bounded

    small : bytes_of bounded ≤ 4096
    small = ground (arith, bytes-bound_text s most)

    plain : has_nul bounded ≡ false
    plain = nul-bound_text s most (ground (arith, h))

    rest_clean : clean ss ≡ true
    rest_clean = ground (arith, h)

    go :
        (rest : List String) (o : Bool)
        → (clean ss ≡ true → output_total rest ≡ ok (bytes_all rest))
        → output_total (if o then bounded ∷ [] else bounded ∷ rest)
          ≡ ok (bytes_all (if o then bounded ∷ [] else bounded ∷ rest))
    go rest true ih = ground (arith, small, plain)
    go rest false ih = ground (arith, small, plain, ih rest_clean)

length-bound_output : (k n : ℕ) (ss : List String) → length (bound_output k n ss) ≤ length ss
unfolding bound_output
length-bound_output zero n ss = omega arith
length-bound_output (suc k) n [] = omega arith
length-bound_output (suc k) n (s ∷ ss) =
    ground (
      arith,
      length-bound_output k (n - bytes_of (bound_text s (if leb 4096 n then 4096 else n))) ss,
    )

passed :
    (v : ℤ) (i : String) (a : Action) (status : ResultStatus) (message : String)
    (output : List String) (truncated : Bool) (s : PrivilegedResult)
    → privileged_result v i a status message output truncated ≡ ok s
    → (is_version s.version ≡ true)
      × (is_request_id s.request_id ≡ true)
      × (has_nul s.message ≡ false)
      × (length s.output ≤ 32)
      × (clean s.output ≡ true)
unfolding privileged_result validate_text
passed v i a status message output truncated s h = (
  ground (arith, h),
  ground (arith, h),
  ground (arith, h),
  ground (arith, h),
  go (output_total output) refl h,
)
  where
    go :
        (o : Result ℕ)
        → output_total output ≡ o
        → (raise_if (not (is_version v)) "unsupported protocol version" >>= λ _.
            raise_if (not (is_request_id i)) "request_id must be a canonical lowercase UUID"
            >>= λ _. validate_text message 1024 >>= λ _.
                raise_if (ltb 32 (length output)) "output contains too many items" >>= λ _.
                o >>= λ total.
                raise_if (ltb 32768 total) "combined output exceeds its length limit" >>= λ _.
                ok (record {
                  version = v;
                  request_id = i;
                  action = a;
                  status = status;
                  message = message;
                  output = output;
                  truncated = truncated;
                }))
          ≡ ok s
        → clean s.output ≡ true
    go (ok n) e h =
        let same : output ≡ s.output = ground (arith, h) in
        ap clean (sym same) ∙ clean-output_total output n e
    go (err x) e h = ground (arith, h)

-- A result that passed its constructor's checks and answers the request passes out of the helper:
-- the checks that the constructor repeats on the bounded texts do not fail.
pub validated_result_total :
    (v : ℤ) (i : String) (a : Action) (status : ResultStatus) (message : String)
    (output : List String) (truncated : Bool) (s : PrivilegedResult)
    → privileged_result v i a status message output truncated ≡ ok s
    → (r : PrivilegedRequest) → r.version ≡ s.version
    → r.request_id ≡ s.request_id
    → r.action ≡ s.action
    → (t : PrivilegedResult) × (validated_result r s ≡ ok t)
unfolding validated_result privileged_result validate_text
validated_result_total v i a status message output truncated s h r sv si sa =
    let (version, id, plain, few, tidy) = passed v i a status message output truncated s h in
    (
      record {
        version = s.version;
        request_id = s.request_id;
        action = s.action;
        status = s.status;
        message = bound_text s.message 512;
        output = bound_output 64 32768 s.output;
        truncated =
            s.truncated
            || not (str_eq (bound_text s.message 512) s.message)
            || not (ids_eq (bound_output 64 32768 s.output) s.output);
      },
      ground (
        arith,
        sv,
        version,
        id,
        few,
        eq_iff s.request_id r.request_id,
        sym si,
        action_eq_iff s.action r.action,
        sym sa,
        bytes-bound_text s.message 512,
        nul-bound_text s.message 512 plain,
        length-bound_output 64 32768 s.output,
        output_total-clean 64 32768 s.output tidy,
        bytes-bound_output 64 32768 s.output,
      ),
    )
