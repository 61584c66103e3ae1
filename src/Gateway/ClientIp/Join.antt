-- ===== src/Gateway/ClientIp/Join.antt =====
-- clientIP of services/gateway/httpx.go on addresses as net.JoinHostPort writes them.
use Prim.Native.Char.{Char, code}
use Prim.Native.String.{[] as no_text, ◌∷◌ as text_cons}
use wallet_ledger.Base.{
  ℕ, ◌≡◌, refl, inl, inr, String, true, false, Bool-cases, none, some, arith, ◌==◌, if◌then◌else◌,
}
use wallet_ledger.Gateway.ClientIp.{
  has, split_first, split_last, clean, after_bracket, split_host_port, remote_host, client_ip,
}

-- s + t
abbrev pub append : String → String → String
append no_text t = t
append (text_cons c s) t = text_cons c (append s t)

split_last-none : (c : ℕ) (s : String) → has c s ≡ false → split_last c s ≡ none
unfolding has split_last
split_last-none c no_text h = refl
split_last-none c (text_cons d s) h =
    let apart : (code d == c) ≡ false = ground (arith, h) in
    let ih = split_last-none c s (ground (arith, h)) in rw (ih, apart) refl

split_last-append :
    (c : Char) (s t : String)
    → has (code c) t ≡ false
    → split_last (code c) (append s (text_cons c t)) ≡ some (s, t)
unfolding split_last
split_last-append c no_text t h =
    let same : (code c == code c) ≡ true = ground arith in
    rw (split_last-none (code c) t h, same, split_last) refl
split_last-append c (text_cons d s) t h = rw (split_last-append c s t h, split_last) refl

split_first-append :
    (c : Char) (s t : String)
    → has (code c) s ≡ false
    → split_first (code c) (append s (text_cons c t)) ≡ some (s, t)
unfolding split_first has
split_first-append c no_text t h =
    let same : (code c == code c) ≡ true = ground arith in rw (same, split_first) refl
split_first-append c (text_cons d s) t h =
    let apart : (code d == code c) ≡ false = ground (arith, h) in
    rw (apart, split_first-append c s t (ground (arith, h)), split_first) refl

-- An address or a port has no bracket of its own.
abbrev pub Bare : String → Type 0
Bare s = (has b'[' s ≡ false) × (has b']' s ≡ false)

-- net.JoinHostPort: an address with a colon is put in brackets.
unfoldable pub join_host_port : String → String → String
unfolding has
join_host_port host port =
    if has b':' host
    then append "[" (append host (append "]:" port))
    else append host (append ":" port)

clean_lem : (s : String) → Bare s → has b':' s ≡ false → clean s ≡ true
unfolding clean
clean_lem s (opening, closing) colon = rw (opening, closing, colon) refl

bracketed_lem :
    (host port : String)
    → Bare host
    → clean port ≡ true
    → split_host_port (append "[" (append host (append "]:" port))) ≡ some (host, port)
unfolding split_host_port after_bracket
bracketed_lem host port (opening, closing) tidy =
    rw (split_first-append _ host (text_cons _ port) closing, opening, tidy) refl

plain_lem :
    (host port : String)
    → clean host ≡ true
    → clean port ≡ true
    → has b'[' host ≡ false
    → has b':' port ≡ false
    → split_host_port (append host (append ":" port)) ≡ some (host, port)
unfolding split_host_port has
plain_lem no_text port h p opening colon = rw (split_last-none b':' port colon, p) refl
plain_lem (text_cons c s) port h p opening colon =
    let other : (code c == b'[') ≡ false = ground (arith, opening) in
    rw (other, split_last-append _ s port colon, h, p) refl

-- Without TRUST_PROXY, the caller of an address that the server reports, as net.JoinHostPort writes it,
-- is its host, of IPv4, IPv6 or by name, whatever X-Forwarded-For the caller sends.
pub client_ip-join :
    (forwarded_for host port : String)
    → Bare host
    → Bare port
    → has b':' port ≡ false
    → client_ip false forwarded_for (join_host_port host port) ≡ host
unfolding client_ip remote_host join_host_port
client_ip-join forwarded_for host port bare tidy colon = elim (Bool-cases (has b':' host)) [
  | inl y ↦ rw (y, bracketed_lem host port bare (clean_lem port tidy colon), remote_host) refl
  | inr n ↦
      rw
        (
          n,
          plain_lem host port (clean_lem host bare n) (clean_lem port tidy colon) bare.0 colon,
          remote_host,
        )
        refl
]
